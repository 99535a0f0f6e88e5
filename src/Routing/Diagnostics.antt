-- ===== src/Routing/Diagnostics.antt =====
-- internal/routing/diagnostics.go: the readiness of the virtual models, as it is reported.
pub mod Agreement
use ya_router.Common.{
  ℕ, suc, Text, Bool, true, false, Option, none, some, List, [], ◌∷◌, ◌++◌, Dict, lookup, text_key,
  map, ℤ, pos, text_less, sort, not, ◌&&◌, if◌then◌else◌,
}
use ya_router.Availability.{
  Reason, provider_not_registered, CooldownReason, other, Snapshot, TargetResult, evaluate,
}
use ya_router.Config.{VirtualModel}
use ya_router.Routing.Prefixes.{strip_model_prefix}
use ya_router.Routing.Decision.{unix_or_zero}
use ya_router.Routing.Router.{Router, Readings, build_availability_snapshot}

pub record TargetReadiness : Type 0 where
  pub target : Text
  pub index : ℕ
  pub is_routable : Bool
  pub reason : Reason
  pub cooldown_until : ℤ
  pub cooldown_reason : CooldownReason
  pub catalog_fetched_at : ℤ
  pub catalog_stale : Bool

pub record VirtualModelReadiness : Type 0 where
  pub virtual_model : Text
  pub strategy : Text
  pub capability : Text
  pub generation : ℕ
  pub selected_target : Text
  pub active : Bool
  pub targets : List TargetReadiness

abbrev evaluated : Text → ℕ → TargetResult → TargetReadiness
evaluated target index result = record {
  target = target;
  index = index;
  is_routable = result.is_routable;
  reason = result.reason;
  cooldown_until = unix_or_zero result.cooldown_until;
  cooldown_reason = result.cooldown_reason;
  catalog_fetched_at = unix_or_zero result.catalog_fetched_at;
  catalog_stale = result.catalog_stale;
}

abbrev unclassified : Text → ℕ → TargetReadiness
unclassified target index = record {
  target = target;
  index = index;
  is_routable = false;
  reason = provider_not_registered;
  cooldown_until = pos 0;
  cooldown_reason = other [];
  catalog_fetched_at = pos 0;
  catalog_stale = false;
}

-- what the loop body appends; the target is not trimmed here
unfoldable pub target_readiness : Text → Option Snapshot → ℕ → Text → TargetReadiness
target_readiness capability snapshot index target =
    let stripped = strip_model_prefix target in
    if stripped.found
    then evaluated target index (evaluate snapshot stripped.provider_id stripped.bare capability)
    else unclassified target index

-- the assignments to the summary for one target
abbrev pub add_target : TargetReadiness → VirtualModelReadiness → VirtualModelReadiness
add_target t summary = record summary {
  targets = summary.targets ++ (t ∷ []);
  active = if t.is_routable && not summary.active then true else summary.active;
  selected_target =
      if t.is_routable && not summary.active then t.target else summary.selected_target;
}

-- the loop over the targets
unfoldable pub add_targets :
    Text → Option Snapshot → ℕ → List Text → VirtualModelReadiness → VirtualModelReadiness
add_targets capability snapshot index [] summary = summary
add_targets capability snapshot index (target ∷ targets) summary =
    add_targets capability snapshot (suc index) targets
      (add_target (target_readiness capability snapshot index target) summary)

-- `snapshot.Generation()`, 0 for nil
abbrev pub generation_of : Option Snapshot → ℕ
generation_of none = 0
generation_of (some s) = s.generation

abbrev pub empty_summary : Text → Option Snapshot → Text → VirtualModel → VirtualModelReadiness
empty_summary capability snapshot id vm = record {
  virtual_model = id;
  strategy = vm.strategy;
  capability = capability;
  generation = generation_of snapshot;
  selected_target = [];
  active = false;
  targets = [];
}

unfoldable pub readiness_of : Text → Option Snapshot → Text → VirtualModel → VirtualModelReadiness
readiness_of capability snapshot id vm =
    add_targets capability snapshot 0 vm.targets (empty_summary capability snapshot id vm)

abbrev id_of : Text × VirtualModel → Text
id_of (id, _) = id

-- a missing key reads as the zero value
abbrev vm_or_zero : Option VirtualModel → VirtualModel
vm_or_zero none = record { strategy = []; targets = [] }
vm_or_zero (some vm) = vm

unfoldable pub virtual_model_readiness_for :
    Router → Text → Option Snapshot → List VirtualModelReadiness
virtual_model_readiness_for r capability snapshot =
    map
      (λ id. readiness_of capability snapshot id (vm_or_zero (lookup id r.routing.virtual_models)))
      (sort text_less (map id_of r.routing.virtual_models))

unfoldable pub availability_snapshot : Readings → Router → Router × Snapshot
availability_snapshot t r = build_availability_snapshot t r
