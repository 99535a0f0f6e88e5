-- ===== src/Availability/Routable.antt =====
-- What makes a target routable, read off the last view of its provider: the lists of the view and
-- no maps, and capability and model compared one by one in place of the joined key.
use ya_router.Common.{
  ℕ, Text, Bool, true, false, Option, none, some, List, [], ◌∷◌, ◌++◌, ◌≡◌, refl, ◌↔◌, arith, Dict,
  lookup, put, lookup-put, is_empty, ltb, text_key, ◌=?◌, =?_iff, =?_refl, contains, any, all,
  Option-cases, not, ◌&&◌, ◌||◌, if◌then◌else◌, inl, inr,
}
use ya_router.Provider.{Time}
use ya_router.Availability.{
  routable, Cooldown, ProviderView, ProviderEntry, Snapshot, normalize_model, cooldown_key,
  add_cooldowns, entry_of, add_views, new_snapshot, entry_cooldown, is_allowed, has_model,
  evaluate_entry, evaluate,
}
use ya_router.Availability.Keys.{
  no_nul, normalized_key, is_active, is_active-add_cooldowns, contains-map, any-cooldown_key,
}

-- An active cooldown for a model and a capability.
abbrev pub blocks : Time → Text → Text → Cooldown → Bool
blocks t m c x =
    ltb t x.until && ((x.capability =? c) && (normalize_model x.model =? normalize_model m))

-- The requirements of a routable target, over the lists of a provider's view.
abbrev pub is_routable_by : Time → Text → Text → ProviderView → Bool
is_routable_by t model capability v =
    not v.disabled
    && (v.ready
        && (contains capability v.capabilities
            && (not (
                  any
                    (λ c.
                      ltb t c.until
                      && ((c.capability =? capability)
                          && (normalize_model c.model =? normalize_model model)))
                    v.cooldowns)
                && ((is_empty v.allowed_models
                      || any (λ a. normalize_model a =? normalize_model model) v.allowed_models)
                    && (v.catalog_present
                        && any (λ a. normalize_model a =? normalize_model model)
                            v.catalog_models)))))

is_active-entry_cooldown :
    (t : Time) (v : ProviderView) (m c : Text)
    → ltb t (entry_cooldown (entry_of t v) m c t).until
      ≡ is_active t (lookup (cooldown_key m c) (add_cooldowns t v.cooldowns []))
unfolding entry_cooldown entry_of
is_active-entry_cooldown t v m c = rw (normalized_key m c) (ground arith)

is_allowed-entry_of :
    (t : Time) (v : ProviderView) (m : Text)
    → is_allowed (entry_of t v) m
      ≡ any (λ a. normalize_model a =? normalize_model m) v.allowed_models
unfolding is_allowed entry_of
is_allowed-entry_of t v m = contains-map m v.allowed_models

has_model-entry_of :
    (t : Time) (v : ProviderView) (m : Text)
    → has_model (entry_of t v) m
      ≡ any (λ a. normalize_model a =? normalize_model m) v.catalog_models
unfolding has_model entry_of
has_model-entry_of t v m = contains-map m v.catalog_models

evaluate_entry-is_routable_by :
    (s : Snapshot) (v : ProviderView) (m c : Text)
    → no_nul c ≡ true
    → all (λ x. no_nul x.capability) v.cooldowns ≡ true
    → (evaluate_entry s (entry_of s.built_at v) m c).is_routable ≡ is_routable_by s.built_at m c v
unfolding evaluate_entry entry_of lookup
evaluate_entry-is_routable_by s v m c h hs = ground (
  arith,
  is_active-entry_cooldown s.built_at v m c,
  is_active-add_cooldowns s.built_at (cooldown_key m c) v.cooldowns [],
  any-cooldown_key s.built_at m c v.cooldowns,
  is_allowed-entry_of s.built_at v m,
  has_model-entry_of s.built_at v m,
)

-- The last view of a provider: a later view of the same ID replaces an earlier one.
abbrev pub last_view : Text → List ProviderView → Option ProviderView → Option ProviderView
last_view id [] found = found
last_view id (v ∷ vs) found = last_view id vs (if v.id =? id then some v else found)

abbrev pub entry_option : Time → Option ProviderView → Option ProviderEntry
entry_option t none = none
entry_option t (some v) = some (entry_of t v)

pub lookup-add_views :
    (t : Time) (id : Text) (vs : List ProviderView) (m : Dict Text ProviderEntry)
    (o : Option ProviderView)
    → lookup id m ≡ entry_option t o
    → lookup id (add_views t vs m) ≡ entry_option t (last_view id vs o)
unfolding add_views
lookup-add_views t id [] m o h = h
lookup-add_views t id (v ∷ vs) m o h =
    lookup-add_views t id vs (put v.id (entry_of t v) m) (if v.id =? id then some v else o)
      (ground (arith, lookup-put v.id id (entry_of t v) m))

abbrev pub is_routable_by_last : Time → Text → Text → Option ProviderView → Bool
is_routable_by_last t m c none = false
is_routable_by_last t m c (some v) = is_routable_by t m c v

-- The capabilities of the cooldowns in a view have no NUL byte.
abbrev pub clean_cooldowns : Option ProviderView → Bool
clean_cooldowns none = true
clean_cooldowns (some v) = all (λ x. no_nul x.capability) v.cooldowns

-- A snapshot calls a target routable exactly when the last view of the provider meets every
-- requirement, if neither the asked capability nor those of the view's cooldowns have a NUL byte.
pub evaluate-is_routable_by :
    (g : ℕ) (t : Time) (vs : List ProviderView) (id m c : Text)
    → no_nul c ≡ true
    → clean_cooldowns (last_view id vs none) ≡ true
    → (evaluate (some (new_snapshot g t vs)) id m c).is_routable
      ≡ is_routable_by_last t m c (last_view id vs none)
unfolding evaluate new_snapshot
evaluate-is_routable_by g t vs id m c h hs = elim (Option-cases (last_view id vs none)) [
  | inl missing ↦ ground (arith, lookup-add_views t id vs [] none (unfold lookup in refl), missing)
  | inr (v, found) ↦ ground (
    arith,
    lookup-add_views t id vs [] none (unfold lookup in refl),
    found,
    evaluate_entry-is_routable_by
        (record { generation = g; built_at = t; providers = add_views t vs [] }) v m c,
  )
]

-- The flag and the reason agree: `routable` is the reason of the routable targets alone.
pub evaluate-reason :
    (s : Option Snapshot) (id m c : Text)
    → ((evaluate s id m c).is_routable ≡ true) ↔ ((evaluate s id m c).reason ≡ routable)
unfolding evaluate evaluate_entry
evaluate-reason s id m c = (ground arith, ground arith)

evaluate_entry-capable :
    (s : Snapshot) (v : ProviderView) (m c : Text)
    → (evaluate_entry s (entry_of s.built_at v) m c).is_routable ≡ true
    → contains c v.capabilities ≡ true
unfolding evaluate_entry entry_of
evaluate_entry-capable s v m c h = ground arith

pub evaluate-capable :
    (g : ℕ) (t : Time) (vs : List ProviderView) (id m c : Text)
    → (evaluate (some (new_snapshot g t vs)) id m c).is_routable ≡ true
    → (v : ProviderView) × (last_view id vs none ≡ some v) × (contains c v.capabilities ≡ true)
unfolding evaluate new_snapshot
evaluate-capable g t vs id m c h = elim (Option-cases (last_view id vs none)) [
  | inl missing ↦
      absurd (ground (arith, lookup-add_views t id vs [] none (unfold lookup in refl), missing))
  | inr (v, found) ↦ (
    v,
    found,
    evaluate_entry-capable (record { generation = g; built_at = t; providers = add_views t vs [] })
        v m c (ground (arith, lookup-add_views t id vs [] none (unfold lookup in refl), found)),
  )
]

any-blocks-key :
    (t : Time) (m c : Text) (cs : List Cooldown)
    → any (blocks t m c) cs ≡ true
    → any (λ x. ltb t x.until && (cooldown_key x.model x.capability =? cooldown_key m c)) cs ≡ true
unfolding cooldown_key
any-blocks-key t m c [] h = h
any-blocks-key t m c (x ∷ cs) h = ground (
  arith,
  any-blocks-key t m c cs,
  =?_iff x.capability c,
  =?_iff (normalize_model x.model) (normalize_model m),
  =?_refl (c ++ (0 ∷ normalize_model m)),
)

evaluate_entry-blocked :
    (s : Snapshot) (v : ProviderView) (m c : Text)
    → any (blocks s.built_at m c) v.cooldowns ≡ true
    → (evaluate_entry s (entry_of s.built_at v) m c).is_routable ≡ false
unfolding evaluate_entry
evaluate_entry-blocked s v m c h = ground (
  arith,
  is_active-entry_cooldown s.built_at v m c,
  is_active-add_cooldowns s.built_at (cooldown_key m c) v.cooldowns [],
  any-blocks-key s.built_at m c v.cooldowns h,
)

-- A target is not routable while the last view of its provider has an active cooldown for its
-- normalised model and the capability.
pub evaluate-blocked :
    (g : ℕ) (t : Time) (vs : List ProviderView) (id m c : Text) (v : ProviderView)
    → last_view id vs none ≡ some v
    → any (blocks t m c) v.cooldowns ≡ true
    → (evaluate (some (new_snapshot g t vs)) id m c).is_routable ≡ false
unfolding evaluate new_snapshot
evaluate-blocked g t vs id m c v found h = ground (
  arith,
  lookup-add_views t id vs [] none (unfold lookup in refl),
  found,
  evaluate_entry-blocked (record { generation = g; built_at = t; providers = add_views t vs [] }) v
      m c h,
)
