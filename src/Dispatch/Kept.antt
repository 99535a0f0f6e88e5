-- ===== src/Dispatch/Kept.antt =====
-- What every round of a failover keeps: the virtual model and the configuration.
use ya_router.Common.{
  ℕ, suc, ◌≡◌, refl, ◌∙◌, arith, Sum-cases, ◌++◌, Text, Bool, true, false, Option, none, some, List,
  [], ◌∷◌, text_key, ◌=?◌, =?_refl, inl, inr,
}
use ya_router.Config.{VirtualModel}
use ya_router.Provider.{Provider}
use ya_router.Availability.{Snapshot}
use ya_router.Routing.Decision.{SelectionDecision, SkippedTarget}
use ya_router.Routing.Selector.{
  Selection, selected, no_active, check_target, select_from, select_priority_target_excluding,
}
use ya_router.Routing.Router.{
  Router, Resolution, resolved, failed, Readings, build_views, registered,
  build_availability_snapshot, dispatch_found, dispatch_selection, resolve_found,
  resolve_virtual_model_excluding,
}
use ya_router.Routing.Router.Capability.{after_read}

-- A decision for the virtual model that was asked for.
abbrev pub names : Text → Option SelectionDecision → Bool
names v none = false
names v (some d) = d.virtual_model =? v

abbrev selection_names : Text → Selection → Bool
selection_names v (selected d) = names v (some d)
selection_names v (no_active e) = true

abbrev pub Names : Text → Resolution → Type 0
Names v (resolved res) = names v res.selection ≡ true
Names v (failed e) = Unit

selection_names-select_from :
    (v c : Text) (s : Option Snapshot) (ex : List Text) (i : ℕ) (ts : List Text)
    (skipped : List SkippedTarget)
    → selection_names v (select_from v c s ex i ts skipped) ≡ true
unfolding select_from
selection_names-select_from v c s ex i [] skipped = refl
selection_names-select_from v c s ex i (t ∷ ts) skipped =
    elim (Sum-cases (check_target c s ex i t)) [
      | inl (skip, e) ↦
          ground (arith, selection_names-select_from v c s ex (suc i) ts (skipped ++ (skip ∷ [])))
      | inr (result, e) ↦ ground (arith, =?_refl v)
    ]

dispatch_found-Names :
    (v : Text) (d : SelectionDecision) (o : Option Provider) (r : Router)
    → names v (some d) ≡ true
    → Names v (dispatch_found v d o r).1
unfolding dispatch_found
dispatch_found-Names v d none r h = tt
dispatch_found-Names v d (some p) r h = h

dispatch_selection-Names :
    (v : Text) (s : Selection) (r : Router)
    → selection_names v s ≡ true
    → Names v (dispatch_selection v s r).1
unfolding dispatch_selection
dispatch_selection-Names v (no_active e) r h = tt
dispatch_selection-Names v (selected d) r h = dispatch_found-Names v d _ r h

pub resolve_found-Names :
    (t : Readings) (v c : Text) (ex : List Text) (r : Router) (o : Option VirtualModel)
    → Names v (resolve_found t v c ex r o).1
unfolding resolve_found resolve_virtual_model_excluding select_priority_target_excluding
resolve_found-Names t v c ex r none = tt
resolve_found-Names t v c ex r (some vm) =
    dispatch_selection-Names v _ _ (selection_names-select_from v c _ ex 0 _ [])

-- No step of a resolution touches the configuration.
routing-build_views :
    (t : Readings) (ps : List Provider) (r : Router) → (build_views t ps r).0.routing ≡ r.routing
unfolding build_views
routing-build_views t [] r = refl
routing-build_views t (p ∷ ps) r = routing-build_views t ps (after_read t p r)

routing-dispatch_found :
    (v : Text) (d : SelectionDecision) (o : Option Provider) (r : Router)
    → (dispatch_found v d o r).0.routing ≡ r.routing
unfolding dispatch_found
routing-dispatch_found v d none r = refl
routing-dispatch_found v d (some p) r = refl

routing-dispatch_selection :
    (v : Text) (s : Selection) (r : Router) → (dispatch_selection v s r).0.routing ≡ r.routing
unfolding dispatch_selection
routing-dispatch_selection v (no_active e) r = refl
routing-dispatch_selection v (selected d) r = routing-dispatch_found v d _ r

pub routing-resolve_found :
    (t : Readings) (v c : Text) (ex : List Text) (r : Router) (o : Option VirtualModel)
    → (resolve_found t v c ex r o).0.routing ≡ r.routing
unfolding resolve_found resolve_virtual_model_excluding build_availability_snapshot
routing-resolve_found t v c ex r none = refl
routing-resolve_found t v c ex r (some vm) =
    routing-dispatch_selection v _ _ ∙ routing-build_views t (registered r) r
