-- ===== src/Tests/Operations.antt =====
-- Runs of the operation store.
use ya_router.Common.{
  codes, some, none, List, [], ◌∷◌, ◌≡◌, refl, arith, lookup, text_key, pos, sort, insert_sorted,
  text_less, put, true,
}
use ya_router.Operation.Types.{running, terminal, succeeded}
use ya_router.Operation.Store.{
  written, failed_after_rename, get, Persisted, prune_locked, pruned, prune_stale,
}
use ya_router.Operation.Lifecycle.{transition, update_progress, cancel}
use ya_router.Operation.Create.{create, hash_idempotency}
use ya_router.Operation.Lifecycle.Effects.{
  RecordOutcome, transition-RecordOutcome, update_progress-RecordOutcome,
}
use ya_router.Operation.Create.Outcome.{CreateOutcome, create-CreateOutcome}
use ya_router.Operation.Lifecycle.Terminal.{terminal_unchanged}
use ya_router.Operation.Calls.{Call, transitions, cancels, run_all}
use ya_router.Operation.Calls.Log.{IsSequenced}
use ya_router.Operation.Calls.Opened.{IsLog, open-run_all-IsSequenced}
use ya_router.Operation.Recovery.{
  recovered, recover_locked, recover_all, recover_entry, open_store, loaded_store, load_operations,
  with_defaults, has_live,
}
use ya_router.Operation.Recovery.Settled.{recover_locked-terminal}
use ya_router.Tests.Samples.{sample_store, done, live, request, options, first_event}

transition-RecordOutcome_example :
    RecordOutcome
      (codes "op_2")
      sample_store
      (transition (codes "op_2") succeeded (pos 100) none none [] 5 written sample_store)
transition-RecordOutcome_example =
    transition-RecordOutcome (codes "op_2") succeeded (pos 100) none none [] 5 written sample_store

update_progress-RecordOutcome_example :
    RecordOutcome
      (codes "op_2")
      sample_store
      (update_progress (codes "op_2") (pos 40) none 5 failed_after_rename sample_store)
update_progress-RecordOutcome_example =
    update_progress-RecordOutcome (codes "op_2") (pos 40) none 5 failed_after_rename sample_store

-- The digest stands in for SHA-256.
create-CreateOutcome_example :
    CreateOutcome request
      (hash_idempotency (λ t. t) request.owner request.idempotency_key)
      (codes "op_3")
      sample_store
      (create (λ t. t) 200 200 200 (codes "op_3") written request sample_store)
create-CreateOutcome_example =
    create-CreateOutcome (λ t. t) 200 200 200 (codes "op_3") written request sample_store

found_done : lookup (codes "op_1") sample_store.operations ≡ some done
unfolding lookup
found_done = refl

done-terminal : terminal done.contents.state ≡ true
unfolding terminal
done-terminal = refl

terminal_unchanged_example :
    ((transition (codes "op_1") running (pos 5) none none [] 5 written sample_store).0
      ≡ sample_store)
    × ((update_progress (codes "op_1") (pos 5) none 5 written sample_store).0 ≡ sample_store)
    × ((cancel (codes "op_1") 5 written (recover_locked 600 sample_store).0 sample_store).0
        ≡ sample_store)
terminal_unchanged_example =
    terminal_unchanged (codes "op_1") running (pos 5) none none [] 5 written
      (recover_locked 600 sample_store).0 sample_store done found_done done-terminal

abbrev two_calls : List Call
two_calls =
    transitions (codes "op_2") succeeded (pos 100) none none [] 5 written
    ∷ cancels (codes "op_2") 6 written sample_store
    ∷ []

abbrev sample_file : Persisted
sample_file = record { next_sequence = 1; operations = done ∷ []; events = first_event ∷ [] }

sample_file-IsLog : IsLog options sample_file
unfolding with_defaults
sample_file-IsLog = record { increasing = (tt, tt); bounded = omega arith }

opened : open_store options 2 2 written (some sample_file) ≡ some (loaded_store options sample_file)
unfolding open_store recover_locked recover_all recover_entry prune_locked pruned prune_stale
    has_live put terminal sort insert_sorted lookup
opened = refl

open-run_all-IsSequenced_example :
    IsSequenced (run_all (λ t. t) two_calls (loaded_store options sample_file))
unfolding loaded_store load_operations put
open-run_all-IsSequenced_example =
    open-run_all-IsSequenced (λ t. t) options 2 2 written sample_file
      (loaded_store options sample_file) two_calls sample_file-IsLog opened (omega arith)

-- The second operation has expired by then.
recovered_live :
    get (recover_locked 600 sample_store).0 (codes "op_2") ≡ some (recovered 600 2 live.contents)
unfolding get recover_locked lookup sort insert_sorted text_less terminal put
recovered_live = refl

recover_locked-terminal_example : terminal (recovered 600 2 live.contents).state ≡ true
recover_locked-terminal_example =
    recover_locked-terminal 600 sample_store (codes "op_2") (recovered 600 2 live.contents)
      recovered_live
