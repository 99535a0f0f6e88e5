-- ===== src/Routing/Router/Capability.antt =====
-- A resolved provider is registered and supports the capability that was asked for.
use ya_router.Common.{
  ◌≡◌, refl, subst, ap, ◌∙◌, arith, Text, Bool, true, Option, none, some, List, [], ◌∷◌, map, All,
  lookup, lookup-AllEntries, text_key, ◌=?◌, =?_iff, contains, trim_space, not, ◌&&◌, Bool-cases,
  Option-cases, inl, inr,
}
use mathlib.Core.Option
use ya_router.Provider.{Provider}
use ya_router.Provider.Registry.{Registry, all_providers}
use ya_router.Provider.Registry.Consistency.{IsConsistent}
use ya_router.Availability.{Cooldown, ProviderView, evaluate, new_snapshot}
use ya_router.Availability.Routable.{evaluate-capable, last_view}
use ya_router.Config.{VirtualModel}
use ya_router.Routing.Prefixes.{strip_model_prefix}
use ya_router.Routing.Decision.{SelectionDecision}
use ya_router.Routing.Selector.{selected, select_priority_target_excluding}
use ya_router.Routing.Selector.First.{selected-is_usable}
use ya_router.Routing.Cooldown.Registry.{cooldowns}
use ya_router.Routing.Router.{
  Router, Resolution, resolved, failed, Readings, has_capability, present, registered, view_of,
  record_exits, build_views, build_availability_snapshot,
}

-- A view has the capabilities of the registered provider of its ID.
abbrev pub IsViewOf : Registry → ProviderView → Type 0
IsViewOf g v =
    Option.map (λ (p : Provider). p.capabilities) (lookup v.id g.providers) ≡ some v.capabilities

-- A provider of the list is the one registered under its ID.
abbrev pub IsRegisteredIn : Registry → Provider → Type 0
IsRegisteredIn g p = lookup p.id g.providers ≡ some p

present-IsRegisteredIn :
    (g : Registry) (ids : List Text)
    → IsConsistent g
    → All (IsRegisteredIn g) (present (map (λ id. lookup id g.providers) ids))
present-IsRegisteredIn g [] h = tt
present-IsRegisteredIn g (id ∷ ids) h = elim (Option-cases (lookup id g.providers)) [
  | inl missing ↦ rw missing (present-IsRegisteredIn g ids h)
  | inr (p, found) ↦ rw found (
    ap (λ x. lookup x g.providers)
          (lookup-AllEntries (λ k q. q.id ≡ k) id p g.providers h.keyed found)
        ∙ found,
    present-IsRegisteredIn g ids h,
  )
]

pub registered-IsRegisteredIn :
    (r : Router) → IsConsistent r.registry → All (IsRegisteredIn r.registry) (registered r)
unfolding all_providers
registered-IsRegisteredIn r h = present-IsRegisteredIn r.registry r.registry.order h

abbrev some_list {ℓ} : {A : Type ℓ} → Option A → List A
some_list none = []
some_list (some x) = x ∷ []

abbrev pub after_read : Readings → Provider → Router → Router
after_read t p r = record r {
  cooldowns = (cooldowns p.id (t.now p.id) (t.replaced p.id) r.cooldowns).0;
  metrics =
      record_exits p.id (cooldowns p.id (t.now p.id) (t.replaced p.id) r.cooldowns).2 r.metrics;
}

pub view_of_lem :
    (p : Provider) (cs : List Cooldown)
    → ((view_of p cs).id ≡ p.id) × ((view_of p cs).capabilities ≡ p.capabilities)
unfolding view_of
view_of_lem p cs = ground arith

pub registry-build_views :
    (t : Readings) (ps : List Provider) (r : Router) → (build_views t ps r).0.registry ≡ r.registry
unfolding build_views
registry-build_views t [] r = refl
registry-build_views t (p ∷ ps) r = registry-build_views t ps (after_read t p r)

build_views-IsViewOf :
    (g : Registry) (t : Readings) (ps : List Provider) (r : Router)
    → All (IsRegisteredIn g) ps
    → All (IsViewOf g) (build_views t ps r).1
unfolding build_views
build_views-IsViewOf g t [] r hs = tt
build_views-IsViewOf g t (p ∷ ps) r hs = (
  ground (arith, view_of_lem p (cooldowns p.id (t.now p.id) (t.replaced p.id) r.cooldowns).1, hs.0),
  build_views-IsViewOf g t ps (after_read t p r) hs.1,
)

same_view : (w v : ProviderView) → some w ≡ some v → w ≡ v
same_view w v e = ground arith

module _ (P : ProviderView → Type 0) (id : Text) where
  none_or_last :
      (o : Option ProviderView) (v : ProviderView)
      → All (λ w. P w × (w.id ≡ id)) (some_list o)
      → o ≡ some v
      → P v × (v.id ≡ id)
  none_or_last none v h e = ground arith
  none_or_last (some w) v h e = subst (λ x. P x × (x.id ≡ id)) (same_view w v e) h.0

  -- The last view of a provider is one of the views, and has its ID.
  pub last_view-All :
      (vs : List ProviderView) (o : Option ProviderView) (v : ProviderView)
      → All P vs
      → All (λ w. P w × (w.id ≡ id)) (some_list o)
      → last_view id vs o ≡ some v
      → P v × (v.id ≡ id)
  last_view-All [] o v hs ho e = none_or_last o v ho e
  last_view-All (w ∷ vs) o v hs ho e = elim (Bool-cases (w.id =? id)) [
    | inl same ↦
        last_view-All vs (some w) v hs.1 ((hs.0, (=?_iff w.id id).0 same), tt) (rw same at e)
    | inr other ↦ last_view-All vs o v hs.1 ho (rw other at e)
  ]

pub routable_of_usable : (a b x : Bool) → (not a && (b && x)) ≡ true → x ≡ true
routable_of_usable a b x h = ground arith

-- A selected target's provider, if the registry has it, supports the capability.
pub selected-capable :
    (t : Readings) (r : Router) (vm : VirtualModel) (v c : Text) (ex : List Text)
    (d : SelectionDecision) (p : Provider)
    → IsConsistent r.registry
    → select_priority_target_excluding v vm c (some (build_availability_snapshot t r).1) ex
      ≡ selected d
    → lookup (strip_model_prefix (trim_space d.selected_target)).provider_id r.registry.providers
      ≡ some p
    → has_capability p c ≡ true
unfolding build_availability_snapshot has_capability
selected-capable t r vm v c ex d p h sel found =
    let stripped = strip_model_prefix (trim_space d.selected_target) in
    let vs = (build_views t (registered r) r).1 in
    let usable =
      selected-is_usable v vm c (some (new_snapshot r.generation t.built_at vs)) ex d sel in
    let (view, last, capable) =
      evaluate-capable r.generation t.built_at vs stripped.provider_id stripped.bare c (
        routable_of_usable (contains (trim_space d.selected_target) ex) stripped.found
          (evaluate (some (new_snapshot r.generation t.built_at vs)) stripped.provider_id
            stripped.bare c).is_routable
          usable) in
    let (is_view, same_id) =
      last_view-All (IsViewOf r.registry) stripped.provider_id vs none view
        (build_views-IsViewOf r.registry t (registered r) r (registered-IsRegisteredIn r h)) tt
        last in
    ground (arith, is_view, same_id, capable, found)

-- What the result of a resolution has to meet.
abbrev pub IsServedBy : Registry → Text → Resolution → Type 0
IsServedBy g c (resolved res) =
    IsRegisteredIn g res.provider × (has_capability res.provider c ≡ true)
IsServedBy g c (failed e) = Unit
