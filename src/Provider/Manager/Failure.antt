-- ===== src/Provider/Manager/Failure.antt =====
-- internal/provider/manager.go: a reconciliation that fails.
use ya_router.Common.{
  ℕ, Text, Bool, true, false, Bool-cases, Option, none, some, List, [], ◌∷◌, ◌++◌, ◌≡◌, refl, sym,
  subst, ◌∙◌, arith, Dict, lookup, text_key, nat_key, ◌=?◌, ◌==◌, any-append, ◌⊎◌, inl, inr, branch,
  branch_by,
}
use ya_router.Provider.Lifecycle.{Instance, Factory}
use ya_router.Provider.Manager.{
  DesiredProvider, EffectiveRecord, Manager, ManagerError, close_providers, build,
}
use ya_router.Provider.Manager.Reconcile.{
  Progress, with_built, build_with, reuse_or_build, consider, then_go, reconcile_loop, requested_of,
  end_reconcile, publish_next, validate_desired, all_registered, reconcile_checked, reconcile,
}
use ya_router.Provider.Manager.Atomic.{
  serials, serials-append, IsUntouched, Builds, unmade, retold, build-Builds,
}

module _ {Config : Type 0} (fingerprint : Config → Option Text) where
  -- How the loop leaves the manager `m`: on an error every instance it made is closed.
  abbrev Goes : Manager Config → Progress Config × Option ManagerError → Type 0
  Goes m (p, none) = IsUntouched m p.manager p.newly_built
  Goes m (p, some e) = IsUntouched m p.manager []

  closed-IsUntouched :
      (m n p : Manager Config) (xs : List Instance)
      → IsUntouched m n xs
      → IsUntouched n p []
      → IsUntouched m (close_providers xs p) []
  unfolding close_providers
  closed-IsUntouched m n p xs v u = record {
    factories = u.factories ∙ v.factories;
    factory_order = u.factory_order ∙ v.factory_order;
    desired = u.desired ∙ v.desired;
    effective = u.effective ∙ v.effective;
    health = u.health ∙ v.health;
    draining = u.draining ∙ v.draining;
    made = omega (arith, v.made, u.made);
    closed = λ k. ground (
      arith,
      v.closed k,
      u.closed k,
      v.made,
      u.made,
      any-append (λ x. x == k) (serials xs) p.closed,
    );
  }

  grown-IsUntouched :
      (m n p : Manager Config) (xs : List Instance) (x : Instance)
      → IsUntouched m n xs
      → IsUntouched n p (x ∷ [])
      → IsUntouched m p (xs ++ x ∷ [])
  grown-IsUntouched m n p xs x v u = record {
    factories = u.factories ∙ v.factories;
    factory_order = u.factory_order ∙ v.factory_order;
    desired = u.desired ∙ v.desired;
    effective = u.effective ∙ v.effective;
    health = u.health ∙ v.health;
    draining = u.draining ∙ v.draining;
    made = omega (arith, v.made, u.made);
    closed =
        λ k. ground (arith, v.closed k, u.closed k, v.made, u.made, serials-append k xs (x ∷ []));
  }

  with_built-Goes :
      (m : Manager Config) (id : Text) (p : Progress Config)
      (z : Manager Config × (ManagerError ⊎ Instance))
      → IsUntouched m p.manager p.newly_built
      → Builds p.manager z
      → Goes m (with_built fingerprint id p z)
  with_built-Goes m id p (n, inl e) v u =
      retold m _ _ [] (unmade _ _ refl refl refl refl refl refl refl refl)
        (closed-IsUntouched m p.manager n p.newly_built v u)
  with_built-Goes m id p (n, inr x) v u = grown-IsUntouched m p.manager n p.newly_built x v u

  abbrev is_there : Option (Factory Config) → Bool
  is_there none = false
  is_there (some f) = true

  registered_found :
      (id : Text) (d : DesiredProvider Config) (ds : List (DesiredProvider Config))
      (m : Manager Config)
      → all_registered ds m ≡ true
      → lookup id (requested_of ds) ≡ some d
      → is_there (lookup d.id m.factories) ≡ true
  unfolding lookup
  registered_found id d [] m h found = absurd (ground (arith, found))
  registered_found id d (e ∷ ds) m h found = elim (Bool-cases (e.id =? id)) [
    | inl same ↦ ground (arith, same, found, h)
    | inr other ↦ registered_found id d ds m (ground (arith, h)) (ground (arith, other, found))
  ]

  build_with-Goes :
      (m : Manager Config) (d : DesiredProvider Config) (p : Progress Config)
      (o : Option (Factory Config))
      → is_there o ≡ true
      → IsUntouched m p.manager p.newly_built
      → Goes m (build_with fingerprint d p o)
  build_with-Goes m d p none there v = absurd (ground (arith, there))
  build_with-Goes m d p (some f) there v =
      with_built-Goes m d.id p (build f d.config p.manager) v (build-Builds f d.config p.manager)

  reuse_or_build-Goes :
      (m : Manager Config) (d : DesiredProvider Config) (p : Progress Config)
      (o : Option EffectiveRecord)
      → is_there (lookup d.id m.factories) ≡ true
      → IsUntouched m p.manager p.newly_built
      → Goes m (reuse_or_build fingerprint d p o)
  reuse_or_build-Goes m d p (some e) there v = v
  reuse_or_build-Goes m d p none there v =
      build_with-Goes m d p (lookup d.id p.manager.factories)
        (subst (λ (fs : Dict Text (Factory Config)). is_there (lookup d.id fs) ≡ true)
          (sym v.factories) there)
        v

  consider-Goes :
      (m : Manager Config) (id : Text) (p : Progress Config) (o : Option (DesiredProvider Config))
      → ((d : DesiredProvider Config) → o ≡ some d → is_there (lookup d.id m.factories) ≡ true)
      → IsUntouched m p.manager p.newly_built
      → Goes m (consider fingerprint id p o)
  consider-Goes m id p none there v = v
  consider-Goes m id p (some d) there v =
      branch (Goes m) d.enabled (reuse_or_build-Goes m d p _ (there d refl) v) v

  then_go-Goes :
      (m : Manager Config) (f : Progress Config → Progress Config × Option ManagerError)
      (z : Progress Config × Option ManagerError)
      → ((p : Progress Config) → IsUntouched m p.manager p.newly_built → Goes m (f p))
      → Goes m z
      → Goes m (then_go fingerprint f z)
  then_go-Goes m f (p, some e) go v = v
  then_go-Goes m f (p, none) go v = go p v

  loop-Goes :
      (m : Manager Config) (ds : List (DesiredProvider Config)) (ids : List Text)
      (p : Progress Config)
      → all_registered ds m ≡ true
      → IsUntouched m p.manager p.newly_built
      → Goes m (reconcile_loop fingerprint (requested_of ds) ids p)
  unfolding reconcile_loop
  loop-Goes m ds [] p h v = v
  loop-Goes m ds (id ∷ ids) p h v =
      then_go-Goes m (reconcile_loop fingerprint (requested_of ds) ids) _
        (λ q u. loop-Goes m ds ids q h u)
        (consider-Goes m id p (lookup id (requested_of ds))
          (λ d found. registered_found id d ds m h found) v)

  -- What is to hold of a reconciliation of the manager `m`.
  abbrev pub Atomic : Manager Config → Manager Config × Option ManagerError → Type 0
  Atomic m z = (e : ManagerError) → z.1 ≡ some e → IsUntouched m z.0 []

  publish-Atomic :
      (m : Manager Config) (ds : List (DesiredProvider Config)) (p : Progress Config) (o : Option ℕ)
      → IsUntouched m p.manager p.newly_built
      → Atomic m (publish_next fingerprint ds p o)
  publish-Atomic m ds p none v e failed =
      retold m _ _ [] (unmade _ _ refl refl refl refl refl refl refl refl) (
        closed-IsUntouched m p.manager p.manager p.newly_built v
          (unmade _ _ refl refl refl refl refl refl refl refl))
  publish-Atomic m ds p (some g) v e failed = absurd (ground (arith, failed))

  end-Atomic :
      (m : Manager Config) (ds : List (DesiredProvider Config)) (o : Option ℕ)
      (z : Progress Config × Option ManagerError)
      → Goes m z
      → Atomic m (end_reconcile fingerprint ds o z)
  end-Atomic m ds o (p, some e) v = λ f failed. v
  end-Atomic m ds o (p, none) v =
      branch (Atomic m) p.changed (publish-Atomic m ds p o v)
        (λ e failed. absurd (ground (arith, failed)))

  checked-Atomic :
      (m : Manager Config) (ds : List (DesiredProvider Config)) (o : Option ℕ)
      (e : Option ManagerError)
      → Atomic m (reconcile_checked fingerprint ds o m e)
  checked-Atomic m ds o (some e) = λ f failed. unmade m m refl refl refl refl refl refl refl refl
  checked-Atomic m ds o none =
      branch_by (Atomic m) (all_registered ds m)
        (λ registered. end-Atomic m ds o _ (
          loop-Goes m ds m.factory_order _ registered
            (unmade m m refl refl refl refl refl refl refl refl)))
        (λ missing e failed. unmade m m refl refl refl refl refl refl refl refl)

  -- A reconciliation is all or nothing: if it returns an error, be it in the request, in a factory, in
  -- the validation of an instance or in the publication, then the factories, the desired and
  -- effective providers, the health records and the instances that drain are what they were; and the
  -- instances that it has closed are exactly those that it has made.
  pub reconcile_failed-IsUntouched :
      (is_cancelled : Bool) (ds : List (DesiredProvider Config)) (o : Option ℕ) (m : Manager Config)
      (e : ManagerError)
      → (reconcile fingerprint is_cancelled ds o m).1 ≡ some e
      → IsUntouched m (reconcile fingerprint is_cancelled ds o m).0 []
  unfolding reconcile
  reconcile_failed-IsUntouched is_cancelled ds o m =
      branch (Atomic m) is_cancelled
        (λ e failed. unmade m m refl refl refl refl refl refl refl refl)
        (checked-Atomic m ds o (validate_desired [] ds))
