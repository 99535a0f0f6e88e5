-- ===== src/Routing/Selector.antt =====
-- internal/routing/selector.go: the first active target of an umbrella model.
pub mod First
use ya_router.Common.{
  ℕ, suc, Text, Bool, true, false, Option, none, some, List, [], ◌∷◌, ◌++◌, text_key, contains,
  trim_space, ℤ, pos, ◌⊎◌, inl, inr, if◌then◌else◌,
}
use ya_router.Availability.{
  Snapshot, TargetResult, already_attempted, provider_not_registered, evaluate,
}
use ya_router.Config.{strategy_priority, VirtualModel}
use ya_router.Routing.Prefixes.{strip_model_prefix}
use ya_router.Routing.Decision.{SkippedTarget, SelectionDecision, NoActiveTargetError, unix_or_zero}

pub data Selection : Type 0 where
  selected : SelectionDecision → Selection
  no_active : NoActiveTargetError → Selection

abbrev pub skipped_for : Text → ℕ → TargetResult → SkippedTarget
skipped_for target index result = record {
  target = target;
  index = index;
  reason = result.reason;
  cooldown_until = unix_or_zero result.cooldown_until;
}

-- the body of the loop: why the target is skipped, or its evaluation
unfoldable pub check_target :
    Text → Option Snapshot → List Text → ℕ → Text → SkippedTarget ⊎ TargetResult
check_target capability snapshot exclude index target =
    let trimmed = trim_space target in
    let stripped = strip_model_prefix trimmed in
    let result = evaluate snapshot stripped.provider_id stripped.bare capability in
    if contains trimmed exclude
    then inl (record {
      target = target;
      index = index;
      reason = already_attempted;
      cooldown_until = pos 0;
    })
    else if stripped.found
    then (if result.is_routable then inr result else inl (skipped_for target index result))
    else inl (record {
      target = target;
      index = index;
      reason = provider_not_registered;
      cooldown_until = pos 0;
    })

abbrev pub decision_of :
    Text → Text → ℕ → Text → List SkippedTarget → TargetResult → SelectionDecision
decision_of virtual_model capability index target skipped result = record {
  virtual_model = virtual_model;
  strategy = strategy_priority;
  selected_target = target;
  selected_index = index;
  generation = result.generation;
  catalog_fetched_at = unix_or_zero result.catalog_fetched_at;
  catalog_stale = result.catalog_stale;
  capability = capability;
  skipped = skipped;
}

-- the loop over the targets, from an index and with what was skipped so far
unfoldable pub select_from :
    Text → Text → Option Snapshot → List Text → ℕ → List Text → List SkippedTarget → Selection
select_from virtual_model capability snapshot exclude index [] skipped =
    no_active (record { virtual_model = virtual_model; skipped = skipped })
select_from virtual_model capability snapshot exclude index (target ∷ targets) skipped =
    elim (check_target capability snapshot exclude index target) [
      | inl skip ↦
          select_from virtual_model capability snapshot exclude (suc index) targets
            (skipped ++ (skip ∷ []))
      | inr result ↦ selected (decision_of virtual_model capability index target skipped result)
    ]

-- A nil set of exclusions is the empty one.
unfoldable pub select_priority_target_excluding :
    Text → VirtualModel → Text → Option Snapshot → List Text → Selection
select_priority_target_excluding virtual_model vm capability snapshot exclude =
    select_from virtual_model capability snapshot exclude 0 vm.targets []

unfoldable pub select_priority_target : Text → VirtualModel → Text → Option Snapshot → Selection
select_priority_target virtual_model vm capability snapshot =
    select_priority_target_excluding virtual_model vm capability snapshot []
