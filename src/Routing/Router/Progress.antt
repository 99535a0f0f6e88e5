-- ===== src/Routing/Router/Progress.antt =====
-- What a failover to the next target of a virtual model can rely on.
use ya_router.Common.{
  ℕ, suc, ◌≡◌, refl, sym, ap, ◌∙◌, arith, Text, Bool, true, false, Option, none, some, List, [],
  ◌∷◌, lookup, text_key, =?_iff, =?_refl, trim_space, contains, any, not, ◌&&◌,
}
use ya_router.Provider.{Provider}
use ya_router.Availability.{Snapshot}
use ya_router.Config.{VirtualModel}
use ya_router.Routing.Decision.{SelectionDecision}
use ya_router.Routing.Selector.{Selection, selected, no_active, select_priority_target_excluding}
use ya_router.Routing.Selector.First.{
  is_usable, first_index, chosen, select_priority_target_excluding-first, selected-is_usable,
}
use ya_router.Routing.Router.{
  Router, Resolution, resolved, failed, Readings, same_target, ordered_vm, dispatch_found,
  dispatch_selection, resolve_found, resolve_virtual_model_excluding, resolve_next,
}
use ya_router.Routing.Router.Order.{ordered_vm-targets}

-- A target of the virtual model, up to white space, that is not among those attempted.
abbrev pub is_fresh : Option VirtualModel → List Text → Option SelectionDecision → Bool
is_fresh (some vm) attempted (some d) =
    any (same_target d.selected_target) vm.targets
    && not (contains (trim_space d.selected_target) attempted)
is_fresh _ _ _ = false

-- A resolution, if there is one, to such a target.
abbrev pub IsFresh : Option VirtualModel → List Text → Resolution → Type 0
IsFresh o attempted (resolved res) = is_fresh o attempted res.selection ≡ true
IsFresh o attempted (failed e) = Unit

first_index-any :
    (p : Text → Bool) (i : ℕ) (ts : List Text) (j : ℕ) (t : Text)
    → first_index p i ts ≡ some (j, t)
    → any (same_target t) ts ≡ true
first_index-any p i [] j t h = absurd (ground arith)
first_index-any p i (u ∷ ts) j t h = ground (
  arith,
  first_index-any p (suc i) ts j t,
  =?_refl (trim_space t),
  =?_iff (trim_space t) (trim_space u),
)

usable_fresh :
    (c : Text) (s : Option Snapshot) (ex : List Text) (t : Text)
    → is_usable c s ex t ≡ true
    → contains (trim_space t) ex ≡ false
usable_fresh c s ex t h = ground arith

selection_fresh :
    (v c : Text) (vm : VirtualModel) (s : Option Snapshot) (ex : List Text) (r : Router)
    (d : SelectionDecision)
    → select_priority_target_excluding v (ordered_vm r v vm c) c s ex ≡ selected d
    → is_fresh (some vm) ex (some d) ≡ true
selection_fresh v c vm s ex r d h =
    let found =
      first_index-any (is_usable c s ex) 0 (ordered_vm r v vm c).targets d.selected_index
        d.selected_target
        (sym (select_priority_target_excluding-first v (ordered_vm r v vm c) c s ex).0
          ∙ ap chosen h) in
    ground (
      arith,
      found,
      (ordered_vm-targets r v vm c d.selected_target).0,
      usable_fresh c s ex d.selected_target (selected-is_usable v (ordered_vm r v vm c) c s ex d h),
    )

dispatch_found-IsFresh :
    (o : Option VirtualModel) (ex : List Text) (v : Text) (d : SelectionDecision)
    (p : Option Provider) (r : Router)
    → is_fresh o ex (some d) ≡ true
    → IsFresh o ex (dispatch_found v d p r).1
unfolding dispatch_found
dispatch_found-IsFresh o ex v d none r h = tt
dispatch_found-IsFresh o ex v d (some p) r h = h

dispatch_selection-IsFresh :
    (o : Option VirtualModel) (ex : List Text) (v : Text) (s : Selection) (r : Router)
    → ((d : SelectionDecision) → s ≡ selected d → is_fresh o ex (some d) ≡ true)
    → IsFresh o ex (dispatch_selection v s r).1
unfolding dispatch_selection
dispatch_selection-IsFresh o ex v (no_active e) r h = tt
dispatch_selection-IsFresh o ex v (selected d) r h = dispatch_found-IsFresh o ex v d _ r (h d refl)

resolve_found-IsFresh :
    (t : Readings) (v c : Text) (attempted : List Text) (r : Router) (o : Option VirtualModel)
    → IsFresh o attempted (resolve_found t v c attempted r o).1
unfolding resolve_found resolve_virtual_model_excluding
resolve_found-IsFresh t v c attempted r none = tt
resolve_found-IsFresh t v c attempted r (some vm) =
    dispatch_selection-IsFresh (some vm) attempted v _ _
      (λ d h. selection_fresh v c vm _ attempted r d h)

-- Whatever the next resolution of a virtual model is to, it is to one of the targets that are
-- configured for it, up to white space, and not to one that was attempted.
pub resolve_next-IsFresh :
    (t : Readings) (v c : Text) (attempted : List Text) (r : Router)
    → IsFresh (lookup v r.routing.virtual_models) attempted (resolve_next t v c attempted r).1
unfolding resolve_next
resolve_next-IsFresh t v c attempted r =
    resolve_found-IsFresh t v c attempted r (lookup v r.routing.virtual_models)
