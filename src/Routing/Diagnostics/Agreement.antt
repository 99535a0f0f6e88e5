-- ===== src/Routing/Diagnostics/Agreement.antt =====
-- internal/routing/diagnostics.go: the report against the selection of internal/routing/selector.go.
use ya_router.Common.{
  ℕ, suc, ◌+◌, Text, Option, none, some, List, [], ◌∷◌, ◌≡◌, sym, ◌∙◌, ap, arith, length,
  length-append, All, trim_space, if◌then◌else◌,
}
use ya_router.Availability.{Snapshot}
use ya_router.Config.{VirtualModel}
use ya_router.Routing.Selector.{select_priority_target}
use ya_router.Routing.Selector.First.{
  is_usable, first_index, chosen, select_priority_target_excluding-first,
}
use ya_router.Routing.Diagnostics.{
  VirtualModelReadiness, target_readiness, add_target, add_targets, empty_summary, readiness_of,
}

abbrev pub IsTrimmed : Text → Type 0
IsTrimmed t = trim_space t ≡ t

-- The target that a report names as selected.
abbrev pub reported : VirtualModelReadiness → Option Text
reported r = if r.active then some r.selected_target else none

abbrev pub target_at : Option (ℕ × Text) → Option Text
target_at none = none
target_at (some (_, t)) = some t

target_readiness-is_usable :
    (c : Text) (s : Option Snapshot) (i : ℕ) (t : Text)
    → IsTrimmed t
    → ((target_readiness c s i t).is_routable ≡ is_usable c s [] t)
      × ((target_readiness c s i t).target ≡ t)
unfolding target_readiness
target_readiness-is_usable c s i t h = rw h (ground arith, ground arith)

reported-add_targets :
    (c : Text) (s : Option Snapshot) (i : ℕ) (ts : List Text) (r : VirtualModelReadiness)
    → All IsTrimmed ts
    → reported (add_targets c s i ts r) ≡ (
        if r.active
        then some r.selected_target
        else target_at (first_index (is_usable c s []) i ts))
unfolding add_targets
reported-add_targets c s i [] r h = ground arith
reported-add_targets c s i (t ∷ ts) r h = ground (
  arith,
  target_readiness-is_usable c s i t h.0,
  reported-add_targets c s (suc i) ts (add_target (target_readiness c s i t) r) h.1,
)

length-add_targets :
    (c : Text) (s : Option Snapshot) (i : ℕ) (ts : List Text) (r : VirtualModelReadiness)
    → length (add_targets c s i ts r).targets ≡ length r.targets + length ts
unfolding add_targets
length-add_targets c s i [] r = omega arith
length-add_targets c s i (t ∷ ts) r = omega (
  arith,
  length-append r.targets (target_readiness c s i t ∷ []),
  length-add_targets c s (suc i) ts (add_target (target_readiness c s i t) r),
)

-- The report on a virtual model whose targets have no outer white space names as selected the
-- target that a first request would select from the same snapshot in the configured order, and
-- calls the model active exactly when there is one; it has a line for each target.
pub readiness_of-selects :
    (c : Text) (s : Option Snapshot) (id : Text) (vm : VirtualModel)
    → All IsTrimmed vm.targets
    → (reported (readiness_of c s id vm) ≡ target_at (chosen (select_priority_target id vm c s)))
      × (length (readiness_of c s id vm).targets ≡ length vm.targets)
unfolding readiness_of select_priority_target
readiness_of-selects c s id vm h = (
  reported-add_targets c s 0 vm.targets (empty_summary c s id vm) h
      ∙ ap target_at (sym (select_priority_target_excluding-first id vm c s []).0),
  omega (arith, length-add_targets c s 0 vm.targets (empty_summary c s id vm)),
)
