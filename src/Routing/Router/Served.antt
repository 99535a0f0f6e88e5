-- ===== src/Routing/Router/Served.antt =====
-- Every resolution names a registered provider that supports the capability.
use ya_router.Common.{
  ◌≡◌, refl, sym, ap, ◌∙◌, arith, Text, Bool, true, false, Option, none, some, List, [], ◌∷◌, All,
  lookup, lookup-AllEntries, text_key, trim_space, is_empty, ◌&&◌, if◌then◌else◌, Bool-cases, inl,
  inr,
}
use ya_router.Provider.{copilot, Provider}
use ya_router.Provider.Registry.{Registry, get}
use ya_router.Provider.Registry.Consistency.{IsConsistent}
use ya_router.Config.{VirtualModel, ModelMapEntry}
use ya_router.Routing.Prefixes.{Stripped, strip_model_prefix}
use ya_router.Routing.Decision.{SelectionDecision}
use ya_router.Routing.Selector.{Selection, selected, no_active, select_priority_target_excluding}
use ya_router.Routing.Router.{
  Router, RouteError, Resolution, failed, Readings, has_capability, registered,
  build_availability_snapshot, ordered_vm, dispatch_found, dispatch_selection,
  resolve_virtual_model_excluding, resolve_virtual_model,
}
use ya_router.Routing.Router.Resolve.{
  resolve_mapped, resolve_with_prefix, discover_from_catalogs, default_provider_route,
  resolve_candidates, resolve_unmapped, resolve_by_entry, resolve, lists_model,
}
use ya_router.Routing.Router.Capability.{
  IsRegisteredIn, IsServedBy, registered-IsRegisteredIn, registry-build_views, selected-capable,
}

get-IsRegisteredIn :
    (g : Registry) (id : Text) (p : Provider)
    → IsConsistent g
    → lookup id g.providers ≡ some p
    → IsRegisteredIn g p
get-IsRegisteredIn g id p h found =
    ap (λ x. lookup x g.providers)
      (lookup-AllEntries (λ k q. q.id ≡ k) id p g.providers h.keyed found)
    ∙ found

module _ (g : Registry) (c : Text) where
  serve_if :
      (b : Bool) (x y : Resolution)
      → (b ≡ true → IsServedBy g c x)
      → (b ≡ false → IsServedBy g c y)
      → IsServedBy g c (if b then x else y)
  serve_if true x y hx hy = hx refl
  serve_if false x y hx hy = hy refl

  serve_found :
      (id : Text) (e : RouteError) (k : Provider → Resolution)
      → IsConsistent g
      → (o : Option Provider) → lookup id g.providers ≡ o
      → ((p : Provider)
          → lookup id g.providers ≡ some p
          → IsRegisteredIn g p
          → IsServedBy g c (k p))
      → IsServedBy g c (elim o [ none ↦ failed e | some p ↦ k p ])
  serve_found id e k h none l hk = tt
  serve_found id e k h (some p) l hk = hk p l (get-IsRegisteredIn g id p h l)

resolve_mapped-IsServedBy :
    (r : Router) (e : ModelMapEntry) (bare c : Text)
    → IsConsistent r.registry
    → IsServedBy r.registry c (resolve_mapped r e bare c)
unfolding resolve_mapped get
resolve_mapped-IsServedBy r e bare c h =
    serve_found r.registry c e.provider _ _ h (lookup e.provider r.registry.providers) refl
      λ p found reg. serve_if r.registry c (has_capability p c) _ _ (λ able. (reg, able)) (λ _. tt)

resolve_with_prefix-IsServedBy :
    (r : Router) (bare id c : Text)
    → IsConsistent r.registry
    → IsServedBy r.registry c (resolve_with_prefix r bare id c)
unfolding resolve_with_prefix get
resolve_with_prefix-IsServedBy r bare id c h =
    serve_found r.registry c id _ _ h (lookup id r.registry.providers) refl λ p found reg.
      serve_if r.registry c (has_capability p c) _ _
        (λ able.
          serve_if r.registry c (lists_model bare p.list_models) _ _ (λ _. (reg, able)) (λ _. tt))
        (λ _. tt)

default_provider_route-IsServedBy :
    (r : Router) (m c : Text)
    → IsConsistent r.registry
    → IsServedBy r.registry c (default_provider_route r m c)
unfolding default_provider_route get
default_provider_route-IsServedBy r m c h =
    let id = if is_empty r.routing.default_provider then copilot else r.routing.default_provider in
    serve_found r.registry c id _ _ h (lookup id r.registry.providers) refl
      λ p found reg. serve_if r.registry c (has_capability p c) _ _ (λ able. (reg, able)) (λ _. tt)

abbrev IsCandidate : Registry → Text → Provider → Type 0
IsCandidate g c p = IsRegisteredIn g p × (has_capability p c ≡ true)

discover_from_catalogs-IsCandidate :
    (g : Registry) (m c : Text) (ps : List Provider)
    → All (IsRegisteredIn g) ps
    → All (IsCandidate g c) (discover_from_catalogs m c ps)
unfolding discover_from_catalogs
discover_from_catalogs-IsCandidate g m c [] hs = tt
discover_from_catalogs-IsCandidate g m c (p ∷ ps) hs =
    elim (Bool-cases (has_capability p c && lists_model m p.list_models)) [
      | inl found ↦
          rw found ((hs.0, ground arith), discover_from_catalogs-IsCandidate g m c ps hs.1)
      | inr other ↦ rw other (discover_from_catalogs-IsCandidate g m c ps hs.1)
    ]

resolve_candidates-IsServedBy :
    (r : Router) (ps : List Provider) (b : Bool) (m c : Text)
    → IsConsistent r.registry
    → All (IsCandidate r.registry c) ps
    → IsServedBy r.registry c (resolve_candidates r ps b m c)
unfolding resolve_candidates
resolve_candidates-IsServedBy r [] true m c h hs = default_provider_route-IsServedBy r m c h
resolve_candidates-IsServedBy r [] false m c h hs = tt
resolve_candidates-IsServedBy r (p ∷ []) b m c h hs = hs.0
resolve_candidates-IsServedBy r (p ∷ q ∷ ps) b m c h hs = tt

registry-build_availability_snapshot :
    (t : Readings) (r : Router) → (build_availability_snapshot t r).0.registry ≡ r.registry
unfolding build_availability_snapshot
registry-build_availability_snapshot t r = registry-build_views t (registered r) r

dispatch_found-IsServedBy :
    (g : Registry) (v c : Text) (d : SelectionDecision) (r : Router) (id : Text)
    → IsConsistent g
    → (o : Option Provider) → lookup id g.providers ≡ o
    → ((p : Provider) → lookup id g.providers ≡ some p → has_capability p c ≡ true)
    → IsServedBy g c (dispatch_found v d o r).1
unfolding dispatch_found
dispatch_found-IsServedBy g v c d r id h none l able = tt
dispatch_found-IsServedBy g v c d r id h (some p) l able = (get-IsRegisteredIn g id p h l, able p l)

dispatch_selection-IsServedBy :
    (t : Readings) (r : Router) (vm : VirtualModel) (v c : Text) (ex : List Text) (s : Selection)
    → IsConsistent r.registry
    → select_priority_target_excluding v vm c (some (build_availability_snapshot t r).1) ex ≡ s
    → IsServedBy r.registry c (dispatch_selection v s (build_availability_snapshot t r).0).1
unfolding dispatch_selection get
dispatch_selection-IsServedBy t r vm v c ex (no_active e) h sel = tt
dispatch_selection-IsServedBy t r vm v c ex (selected d) h sel =
    let id = (strip_model_prefix (trim_space d.selected_target)).provider_id in
    dispatch_found-IsServedBy r.registry v c d (build_availability_snapshot t r).0 id h
      (lookup id (build_availability_snapshot t r).0.registry.providers)
      (ap (λ (g : Registry). lookup id g.providers)
        (sym (registry-build_availability_snapshot t r)))
      (λ p found. selected-capable t r vm v c ex d p h sel found)

-- Resolving a virtual model, with any targets excluded, names a registered provider that supports
-- the capability, or none.
pub resolve_virtual_model_excluding-IsServedBy :
    (t : Readings) (v : Text) (vm : VirtualModel) (c : Text) (ex : List Text) (r : Router)
    → IsConsistent r.registry
    → IsServedBy r.registry c (resolve_virtual_model_excluding t v vm c ex r).1
unfolding resolve_virtual_model_excluding
resolve_virtual_model_excluding-IsServedBy t v vm c ex r h =
    dispatch_selection-IsServedBy t r (ordered_vm r v vm c) v c ex _ h refl

resolve_unmapped-IsServedBy :
    (t : Readings) (m : Text) (s : Stripped) (b : Bool) (c : Text) (vm : Option VirtualModel)
    (r : Router)
    → IsConsistent r.registry
    → IsServedBy r.registry c (resolve_unmapped t m s b c vm r).1
unfolding resolve_unmapped resolve_virtual_model
resolve_unmapped-IsServedBy t m s b c none r h = elim (Bool-cases s.found) [
  | inl prefixed ↦ simp prefixed (resolve_with_prefix-IsServedBy r s.bare s.provider_id c h)
  | inr bare ↦ simp bare (
      resolve_candidates-IsServedBy r (discover_from_catalogs m c (registered r)) b m c h (
        discover_from_catalogs-IsCandidate r.registry m c (registered r)
          (registered-IsRegisteredIn r h)))
]
resolve_unmapped-IsServedBy t m s b c (some v) r h = elim (Bool-cases s.found) [
  | inl prefixed ↦ simp prefixed (resolve_with_prefix-IsServedBy r s.bare s.provider_id c h)
  | inr bare ↦ simp bare (resolve_virtual_model_excluding-IsServedBy t m v c [] r h)
]

resolve_by_entry-IsServedBy :
    (t : Readings) (m : Text) (b : Bool) (c : Text) (e : Option ModelMapEntry) (r : Router)
    → IsConsistent r.registry
    → IsServedBy r.registry c (resolve_by_entry t m b c e r).1
unfolding resolve_by_entry
resolve_by_entry-IsServedBy t m b c none r h =
    resolve_unmapped-IsServedBy t m (strip_model_prefix m) b c (lookup m r.routing.virtual_models) r
      h
resolve_by_entry-IsServedBy t m b c (some e) r h =
    resolve_mapped-IsServedBy r e (strip_model_prefix m).bare c h

-- In a router over a consistent registry, whatever a request resolves to, by the model map, a
-- prefix, a virtual model, the catalogs or the default, is a registered provider that supports the
-- capability.
pub resolve-IsServedBy :
    (t : Readings) (m c : Text) (r : Router)
    → IsConsistent r.registry
    → IsServedBy r.registry c (resolve t m c r).1
unfolding resolve
resolve-IsServedBy t m c r h = resolve_by_entry-IsServedBy t _ _ c _ r h
