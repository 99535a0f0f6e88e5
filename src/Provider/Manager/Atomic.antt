-- ===== src/Provider/Manager/Atomic.antt =====
-- internal/provider/manager.go: a reconciliation that fails leaves what is in effect, and no
-- instance open.
use ya_router.Common.{
  ℕ, ◌+◌, ◌≤◌, Text, Option, none, some, List, [], ◌∷◌, ◌++◌, ◌≡◌, refl, sym, subst, ◌∙◌, arith,
  map, text_key, nat_key, ◌=?◌, ltb, leb, contains, not, ◌&&◌, ◌||◌, ◌⊎◌, inl, inr, branch,
}
use ya_router.Provider.Lifecycle.{
  Instance, Factory, Built, build_failed, nil_provider, built, validating, constructing,
}
use ya_router.Provider.Manager.{
  Manager, ManagerError, tell, close_providers, judged, validate_capabilities, validate_instance,
  built_instance, build_configured, build,
}

abbrev pub serials : List Instance → List ℕ
serials xs = map (λ x. x.serial) xs

pub serials-append :
    (k : ℕ) (xs ys : List Instance)
    → contains k (serials (xs ++ ys)) ≡ (contains k (serials xs) || contains k (serials ys))
serials-append k [] ys = refl
serials-append k (x ∷ xs) ys = ground (arith, serials-append k xs ys)

abbrev pub made_by : ManagerError ⊎ Instance → List Instance
made_by (inl e) = []
made_by (inr x) = x ∷ []

module _ {Config : Type 0} where
  -- `n` differs from `m` in its events, and in the instances made since: they are `open_instances` or
  -- closed, and nothing else was closed.
  pub record IsUntouched (m n : Manager Config) (open_instances : List Instance) : Type 0 where
    pub factories : n.factories ≡ m.factories
    pub factory_order : n.factory_order ≡ m.factory_order
    pub desired : n.desired ≡ m.desired
    pub effective : n.effective ≡ m.effective
    pub health : n.health ≡ m.health
    pub draining : n.draining ≡ m.draining
    pub made : m.next_instance ≤ n.next_instance
    pub closed :
        (k : ℕ)
        → (contains k (serials open_instances) || contains k n.closed)
          ≡ (contains k m.closed || (ltb m.next_instance k && leb k n.next_instance))

  -- What `build` may do.
  abbrev pub Builds : Manager Config → Manager Config × (ManagerError ⊎ Instance) → Type 0
  Builds m z = IsUntouched m z.0 (made_by z.1)

  pub unmade :
      (m n : Manager Config)
      → n.factories ≡ m.factories
      → n.factory_order ≡ m.factory_order
      → n.desired ≡ m.desired
      → n.effective ≡ m.effective
      → n.health ≡ m.health
      → n.draining ≡ m.draining
      → n.next_instance ≡ m.next_instance
      → n.closed ≡ m.closed
      → IsUntouched m n []
  unmade m n f o d e h w next closed = record {
    factories = f;
    factory_order = o;
    desired = d;
    effective = e;
    health = h;
    draining = w;
    made = omega (arith, next);
    closed = λ k. ground (arith, next, closed);
  }

  module _ (m : Manager Config) (x : Instance) (new : x.serial ≡ m.next_instance + 1) where
    rejected-Builds :
        (n : Manager Config)
        → IsUntouched m n (x ∷ [])
        → IsUntouched m (close_providers (x ∷ []) n) []
    unfolding close_providers
    rejected-Builds n v = record {
      factories = v.factories;
      factory_order = v.factory_order;
      desired = v.desired;
      effective = v.effective;
      health = v.health;
      draining = v.draining;
      made = v.made;
      closed = λ k. ground (arith, v.closed k);
    }

    judged-Builds :
        (n : Manager Config) (o : Option Text) → IsUntouched m n (x ∷ []) → Builds m (judged x n o)
    judged-Builds n (some e) v = rejected-Builds n v
    judged-Builds n none v = v

  validate-Builds :
      (f : Factory Config) (x : Instance) (m : Manager Config)
      → x.serial ≡ m.next_instance + 1
      → Builds m (validate_instance f x (record m { next_instance = m.next_instance + 1 }))
  validate-Builds f x m new =
      let made : IsUntouched m (record m { next_instance = m.next_instance + 1 }) (x ∷ []) =
        record {
          factories = refl;
          factory_order = refl;
          desired = refl;
          effective = refl;
          health = refl;
          draining = refl;
          made = omega arith;
          closed = λ k. ground (arith, new);
        } in
      let told : (n : Manager Config)
          → n
            ≡ tell validating f.descriptor.id 0 []
                (record m { next_instance = m.next_instance + 1 })
          → IsUntouched m n (x ∷ []) =
        λ n e.
          subst (λ z. IsUntouched m z (x ∷ [])) (sym e)
            (record {
              factories = refl;
              factory_order = refl;
              desired = refl;
              effective = refl;
              health = refl;
              draining = refl;
              made = omega arith;
              closed = made.closed;
            }) in
      branch (Builds m) (not (x.provider.id =? f.descriptor.id)) (rejected-Builds m x new _ made) (
        branch (Builds m)
          (not (validate_capabilities f.descriptor.capabilities x.provider.capabilities))
          (rejected-Builds m x new _ (told _ refl))
          (judged-Builds m x new _ (f.validate_provider x.provider) (told _ refl)))

  built-Builds :
      (f : Factory Config) (m : Manager Config) (b : Built) → Builds m (built_instance f m b)
  built-Builds f m (build_failed e) = unmade m m refl refl refl refl refl refl refl refl
  built-Builds f m nil_provider = unmade m m refl refl refl refl refl refl refl refl
  built-Builds f m (built p h c) =
      validate-Builds f
        (record { serial = m.next_instance + 1; provider = p; health = h; closes = c }) m refl

  configured-Builds :
      (f : Factory Config) (config : Config) (m : Manager Config) (e : Option Text)
      → Builds m (build_configured f config m e)
  configured-Builds f config m (some e) = unmade m m refl refl refl refl refl refl refl refl
  configured-Builds f config m none = built-Builds f m (f.build (m.next_instance + 1) config)

  -- Only the events before and after differ.
  pub retold :
      (m n p : Manager Config) (xs : List Instance)
      → IsUntouched n p xs
      → IsUntouched m n []
      → IsUntouched m p xs
  retold m n p xs v u = record {
    factories = v.factories ∙ u.factories;
    factory_order = v.factory_order ∙ u.factory_order;
    desired = v.desired ∙ u.desired;
    effective = v.effective ∙ u.effective;
    health = v.health ∙ u.health;
    draining = v.draining ∙ u.draining;
    made = omega (arith, v.made, u.made);
    closed = λ k. ground (arith, v.closed k, u.closed k, v.made, u.made);
  }

  pub build-Builds :
      (f : Factory Config) (config : Config) (m : Manager Config) → Builds m (build f config m)
  unfolding build
  build-Builds f config m =
      retold m _ _ _
        (configured-Builds f config (tell constructing f.descriptor.id 0 [] m)
          (f.validate_config config))
        (unmade m _ refl refl refl refl refl refl refl refl)
