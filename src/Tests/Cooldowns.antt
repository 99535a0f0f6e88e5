-- ===== src/Tests/Cooldowns.antt =====
-- Runs of the cooldown registry, the metrics, the provider registry and the prefixes.
use ya_router.Common.{
  Text, codes, true, false, none, some, [], ◌∷◌, ◌++◌, ◌≡◌, refl, arith, ◌+◌, ◌*◌, ◌-◌, ◌<◌, ◌^◌,
  if◌then◌else◌, lookup, text_key, pos, pos_part, to_lower, any, length, trim_space, has_prefix,
  drop, inl, inr,
}
use mathlib.Core.Option
use Prim.Native.Nat.{min, max}
use ya_router.Provider.{codex, capability_chat}
use ya_router.Provider.Registry.{register, unregister}
use ya_router.Provider.Registry.Consistency.{
  IsConsistent, new_registry-IsConsistent, register-IsConsistent, unregister-IsConsistent,
}
use ya_router.Availability.{rate_limited, normalize_model, already_attempted}
use ya_router.Availability.Routable.{blocks}
use ya_router.Config.{strategy_quota_priority}
use ya_router.Routing.Prefixes.{strip_model_prefix, add_model_prefix, provider_prefix}
use ya_router.Routing.Prefixes.Laws.{strip_model_prefix-add}
use ya_router.Routing.Decision.{SelectionDecision}
use ya_router.Routing.Metrics.{metric_key, record_selection}
use ya_router.Routing.Metrics.Counts.{count, skips_with, count-record_selection}
use ya_router.Routing.Cooldown.Entry.{
  base_cooldown, max_cooldown, cooldown_duration, valid_cooldown_reason, CooldownEntry,
  cooldown_entry_key, entry_key,
}
use ya_router.Routing.Cooldown.Duration.{cooldown_duration_lem}
use ya_router.Routing.Cooldown.Registry.{
  CooldownRegistry, record_cooldown, cooldowns, open_cooldown_registry,
}
use ya_router.Routing.Cooldown.File.{persist_locked, missing}
use ya_router.Routing.Cooldown.Laws.{is_recordable, record_cooldown-until, IsStored}
use ya_router.Routing.Cooldown.WellFormed.{IsWellFormed}
use ya_router.Routing.Cooldown.Reading.{record_cooldown-blocks}
use ya_router.Routing.Cooldown.RoundTrip.{unexpired, open-persist_locked}
use ya_router.Routing.Router.{ordered_vm, same_target}
use ya_router.Routing.Router.Order.{ordered_vm-targets}
use ya_router.Tests.Samples.{
  codex_provider, sample_registry, gpt, sample_vm, umbrella, sample_router, no_metrics,
}

abbrev gpt_5 : Text
gpt_5 = codes "gpt-5"

abbrev key : Text
key = codes "codex" ++ 0 ∷ codes "chat" ++ 0 ∷ gpt_5

abbrev entry : CooldownEntry
entry = record {
  provider_id = codex;
  model = gpt_5;
  capability = capability_chat;
  until = 5000;
  reason = rate_limited;
  failures = 1;
}

abbrev warm : CooldownRegistry
warm = record { entries = (key, entry) ∷ []; state_path = codes "/state"; file = missing }

key_of_entry : entry_key entry ≡ key
unfolding cooldown_entry_key normalize_model trim_space to_lower
key_of_entry = refl

recordable : is_recordable codex gpt_5 capability_chat rate_limited ≡ true
unfolding trim_space valid_cooldown_reason
recordable = refl

trimmed :
    (trim_space gpt_5 ≡ gpt_5)
    × (trim_space codex ≡ codex)
    × (trim_space capability_chat ≡ capability_chat)
unfolding trim_space
trimmed = (refl, refl, refl)

warm-IsWellFormed : IsWellFormed warm
unfolding lookup
warm-IsWellFormed = record {
  distinct = (refl, tt);
  entries_ok = ((key_of_entry, trimmed.0, recordable, omega arith), tt);
}

open-persist_locked_example :
    Option.map
      (λ (s : CooldownRegistry). lookup key s.entries)
      (open_cooldown_registry (codes "/state") true 1000 (persist_locked warm.entries))
    ≡ some (unexpired 1000 (lookup key warm.entries))
unfolding trim_space
open-persist_locked_example =
    open-persist_locked (codes "/state") 1000 warm key refl warm-IsWellFormed
      (((key_of_entry, trimmed.0, recordable, omega arith), trimmed.1, trimmed.2), tt) (omega arith)

record_cooldown-blocks_example :
    any
      (blocks 3000 gpt_5 capability_chat)
      (cooldowns codex 3000 true
        (record_cooldown codex gpt_5 capability_chat rate_limited (pos 0) 2000 true warm).0).1
    ≡ true
record_cooldown-blocks_example =
    record_cooldown-blocks codex gpt_5 capability_chat rate_limited (pos 0) 2000 3000 true true warm
      recordable (omega arith)

record_cooldown-until_example :
    (e : CooldownEntry) × ((lookup
          (cooldown_entry_key codex gpt_5 capability_chat)
          (record_cooldown codex gpt_5 capability_chat rate_limited
            (pos 0)
            2000
            true
            warm).0.entries
        ≡ some e)
      × (((record_cooldown codex gpt_5 capability_chat rate_limited (pos 0) 2000 true warm).1
            ≡ some e.until)
          × IsStored codex capability_chat rate_limited 2000
              (lookup (cooldown_entry_key codex gpt_5 capability_chat) warm.entries)
              e))
record_cooldown-until_example =
    record_cooldown-until codex gpt_5 capability_chat rate_limited (pos 0) 2000 true warm recordable

cooldown_duration_lem_example :
    cooldown_duration rate_limited 3 (pos 7)
    ≡ max (min max_cooldown (base_cooldown * 2 ^ (3 - 1))) (min max_cooldown (pos_part (pos 7)))
cooldown_duration_lem_example = cooldown_duration_lem rate_limited 3 (pos 7) refl

ordered_vm-targets_example :
    (any (same_target gpt) (ordered_vm sample_router umbrella sample_vm capability_chat).targets
      ≡ any (same_target gpt) sample_vm.targets)
    × (ordered_vm sample_router umbrella
          (record sample_vm { strategy = strategy_quota_priority })
          capability_chat
        ≡ record sample_vm { strategy = strategy_quota_priority })
ordered_vm-targets_example = ordered_vm-targets sample_router umbrella sample_vm capability_chat gpt

strip_model_prefix-add_example : strip_model_prefix (add_model_prefix codex gpt_5) ≡ record {
  bare =
      if has_prefix gpt_5 (provider_prefix codex)
      then drop (length (provider_prefix codex)) gpt_5
      else gpt_5;
  provider_id = codex;
  found = true;
}
strip_model_prefix-add_example = strip_model_prefix-add codex gpt_5 (inr (inl refl))

gpt_found : (strip_model_prefix gpt).found ≡ true
unfolding strip_model_prefix
gpt_found = refl

sample-IsConsistent : IsConsistent sample_registry
sample-IsConsistent = new_registry-IsConsistent (some codex_provider ∷ none ∷ [])

register-IsConsistent_example : IsConsistent (register sample_registry (some codex_provider)).0
register-IsConsistent_example =
    register-IsConsistent sample_registry (some codex_provider) sample-IsConsistent

unregister-IsConsistent_example : IsConsistent (unregister sample_registry codex).0
unregister-IsConsistent_example = unregister-IsConsistent sample_registry codex sample-IsConsistent

abbrev decision : SelectionDecision
decision = record {
  virtual_model = umbrella;
  strategy = sample_vm.strategy;
  selected_target = codes "copilot/gpt-4.1";
  selected_index = 1;
  generation = 1;
  catalog_fetched_at = pos 0;
  catalog_stale = false;
  capability = capability_chat;
  skipped =
      record { target = gpt; index = 0; reason = already_attempted; cooldown_until = pos 0 } ∷ [];
}

abbrev skip_key : Text
skip_key = metric_key gpt (codes "already_attempted")

skips_room : count skip_key no_metrics.skipped + skips_with skip_key decision.skipped < 2 ^ 64
unfolding lookup
skips_room = ground arith

selections_room :
    count (metric_key decision.virtual_model decision.selected_target) no_metrics.selections + 1
    < 2 ^ 64
unfolding lookup
selections_room = ground arith

count-record_selection_example :
    (count skip_key (record_selection decision no_metrics).skipped
      ≡ count skip_key no_metrics.skipped + skips_with skip_key decision.skipped)
    × (count
          (metric_key decision.virtual_model decision.selected_target)
          (record_selection decision no_metrics).selections
        ≡ count (metric_key decision.virtual_model decision.selected_target) no_metrics.selections
          + 1)
count-record_selection_example =
    count-record_selection decision skip_key no_metrics skips_room selections_room
