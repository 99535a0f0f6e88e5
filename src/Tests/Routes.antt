-- ===== src/Tests/Routes.antt =====
-- Runs of the router, its registries and its cooldowns.
use ya_router.Common.{
  to_lower, List, ℕ, suc, lookup, text_key, All, length, codes, true, false, Option, none, some, [],
  ◌∷◌, ◌≡◌, refl, arith, map, text_key, pos, is_empty, trim_space,
}
use ya_router.Provider.{codex, capability_chat}
use ya_router.Provider.Registry.Consistency.{IsConsistent, new_registry-IsConsistent}
use ya_router.Availability.{rate_limited, new_snapshot, evaluate, Snapshot}
use ya_router.Availability.Routable.{is_routable_by_last, last_view, evaluate-is_routable_by}
use ya_router.Routing.Prefixes.{strip_model_prefix}
use ya_router.Routing.Selector.{select_priority_target_excluding}
use ya_router.Routing.Selector.First.{
  chosen, first_index, is_usable, before_first, label, skipped_of,
  select_priority_target_excluding-first,
}
use ya_router.Routing.Cooldown.Policy.{cooldown_policy, cooldown_reason, no_error}
use ya_router.Routing.Cooldown.Registry.{new_cooldown_registry}
use ya_router.Routing.Cooldown.WellFormed.{IsWellFormed}
use ya_router.Routing.Router.{resolve_virtual_model_excluding}
use ya_router.Routing.Router.Resolve.{resolve}
use ya_router.Routing.Router.Served.{resolve-IsServedBy}
use ya_router.Routing.Router.Capability.{IsServedBy}
use ya_router.Routing.Cooldown.Entry.{cooldown_entry_key}
use ya_router.Routing.Router.Later.{Report, after_outcomes, are_others, after_outcome-Avoids}
use ya_router.Routing.Router.Failure.{Avoids, after_outcome, cooldown_key_of}
use ya_router.Routing.Selector.{select_priority_target}
use ya_router.Routing.Diagnostics.{readiness_of}
use ya_router.Routing.Diagnostics.Agreement.{IsTrimmed, reported, target_at, readiness_of-selects}
use ya_router.Routing.Router.{resolve_next}
use ya_router.Routing.Router.Progress.{IsFresh, resolve_next-IsFresh}
use ya_router.Routing.Decision.{SelectionDecision}
use ya_router.Dispatch.{Attempt, failover}
use ya_router.Dispatch.Ends.{is_ended, failover_ends}
use ya_router.Tests.Samples.{
  codex_provider, sample_registry, gpt, sample_vm, umbrella, sample_router, readings, cooling_view,
  free_view,
}

-- A 429 with a short reset signal puts `codex/gpt-5` in cooldown.
short_429 : cooldown_policy 429 no_error (pos 1) ≡ some (rate_limited, pos 1)
unfolding cooldown_policy cooldown_reason
short_429 = refl

gpt_known : (strip_model_prefix gpt).found ≡ true
unfolding strip_model_prefix
gpt_known = refl

gpt_named : is_empty (trim_space (strip_model_prefix gpt).bare) ≡ false
unfolding strip_model_prefix trim_space
gpt_named = refl

empty-IsWellFormed : IsWellFormed new_cooldown_registry
empty-IsWellFormed = record { distinct = tt; entries_ok = tt }

-- Another target succeeds in between.
abbrev other_succeeds : List Report
other_succeeds =
    record {
      target = codes "codex/gpt-4";
      capability = capability_chat;
      status = 200;
      err = no_error;
      retry_after = pos 0;
      now = 950;
      replaced = true;
    }
    ∷ []

other_key : are_others (cooldown_key_of gpt capability_chat) other_succeeds ≡ true
unfolding are_others strip_model_prefix cooldown_entry_key to_lower trim_space
other_key = refl

after_outcome-Avoids_example :
    Avoids gpt
      (resolve_virtual_model_excluding readings umbrella sample_vm capability_chat [] (
        after_outcomes other_succeeds
          (after_outcome gpt capability_chat 429 no_error (pos 1) 900 true sample_router))).1
after_outcome-Avoids_example =
    after_outcome-Avoids gpt capability_chat 429 no_error (pos 1) 900 true sample_router
      rate_limited (pos 1) other_succeeds readings umbrella sample_vm [] short_429 gpt_known
      gpt_named refl empty-IsWellFormed other_key (omega arith) (omega arith)

sample-IsConsistent : IsConsistent sample_registry
sample-IsConsistent = new_registry-IsConsistent (some codex_provider ∷ none ∷ [])

resolve-IsServedBy_example :
    IsServedBy sample_registry capability_chat
      (resolve readings gpt capability_chat sample_router).1
resolve-IsServedBy_example =
    resolve-IsServedBy readings gpt capability_chat sample_router sample-IsConsistent

abbrev free_snapshot : Option Snapshot
free_snapshot = some (new_snapshot 1 1000 (free_view ∷ []))

select_priority_target_excluding-first_example :
    (chosen (select_priority_target_excluding umbrella sample_vm capability_chat free_snapshot [])
      ≡ first_index (is_usable capability_chat free_snapshot []) 0 sample_vm.targets)
    × (map label (
          skipped_of
            (select_priority_target_excluding umbrella sample_vm capability_chat free_snapshot []))
        ≡ before_first (is_usable capability_chat free_snapshot []) 0 sample_vm.targets)
select_priority_target_excluding-first_example =
    select_priority_target_excluding-first umbrella sample_vm capability_chat free_snapshot []

evaluate-is_routable_by_example :
    (evaluate
      (some (new_snapshot 1 1000 (cooling_view ∷ [])))
      codex
      (codes "gpt-5")
      capability_chat).is_routable
    ≡ is_routable_by_last 1000
        (codes "gpt-5")
        capability_chat
        (last_view codex (cooling_view ∷ []) none)
evaluate-is_routable_by_example =
    evaluate-is_routable_by 1 1000 (cooling_view ∷ []) codex (codes "gpt-5") capability_chat refl
      refl

sample_vm-IsTrimmed : All IsTrimmed sample_vm.targets
unfolding trim_space
sample_vm-IsTrimmed = (refl, (refl, tt))

readiness_of-selects_example :
    (reported (readiness_of capability_chat free_snapshot umbrella sample_vm)
      ≡ target_at
          (chosen (select_priority_target umbrella sample_vm capability_chat free_snapshot)))
    × (length (readiness_of capability_chat free_snapshot umbrella sample_vm).targets
        ≡ length sample_vm.targets)
readiness_of-selects_example =
    readiness_of-selects capability_chat free_snapshot umbrella sample_vm sample_vm-IsTrimmed

resolve_next-IsFresh_example :
    IsFresh
      (lookup umbrella sample_router.routing.virtual_models)
      (gpt ∷ [])
      (resolve_next readings umbrella capability_chat (gpt ∷ []) sample_router).1
resolve_next-IsFresh_example =
    resolve_next-IsFresh readings umbrella capability_chat (gpt ∷ []) sample_router

-- Every attempt is answered with 503.
abbrev overloaded : ℕ → Attempt
overloaded n = record {
  status = 503;
  error = no_error;
  retry_after = pos 0;
  output_committed = false;
  context_done = false;
  now = 1000;
  replaced = true;
  readings = readings;
}

abbrev first_decision : SelectionDecision
first_decision = record {
  virtual_model = umbrella;
  strategy = sample_vm.strategy;
  selected_target = gpt;
  selected_index = 0;
  generation = 1;
  catalog_fetched_at = pos 0;
  catalog_stale = false;
  capability = capability_chat;
  skipped = [];
}

configured : lookup umbrella sample_router.routing.virtual_models ≡ some sample_vm
unfolding lookup
configured = refl

failover_ends_example :
    is_ended
      (failover
        (suc (length sample_vm.targets))
        overloaded
        1
        capability_chat
        first_decision
        []
        sample_router).1
    ≡ true
failover_ends_example =
    failover_ends overloaded capability_chat first_decision sample_router sample_vm configured
