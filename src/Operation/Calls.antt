-- ===== src/Operation/Calls.antt =====
-- internal/operation/store.go: the calls of a store, one after the other. Each call of the program
-- holds the mutex while it changes the state, so that every run is such a sequence. `Cancel` changes
-- it in its second critical section only; what its first one has seen is any store.
pub mod Log
pub mod Sequence
pub mod Opened
use ya_router.Common.{ℕ, Text, Option, List, [], ◌∷◌, ℤ}
use ya_router.Provider.{Time}
use ya_router.Operation.Types.{State, Failure, Fields, CreateRequest}
use ya_router.Operation.Store.{Store, WriteOutcome, subscribe, unsubscribe, close}
use ya_router.Operation.Lifecycle.{transition, update_progress, cancel}
use ya_router.Operation.Create.{create}

pub data Call : Type 0 where
  creates : Time → Time → Time → Text → WriteOutcome → CreateRequest → Call
  transitions : Text → State → ℤ → Fields → Option Failure → Text → Time → WriteOutcome → Call
  progresses : Text → ℤ → Fields → Time → WriteOutcome → Call
  cancels : Text → Time → WriteOutcome → Store → Call
  subscribes : ℕ → Call
  unsubscribes : ℕ → Call
  closes : Call

unfoldable pub run : (Text → Text) → Call → Store → Store
unfolding create transition update_progress cancel subscribe unsubscribe close
run digest (creates checked pruned_at now id w request) s =
    (create digest checked pruned_at now id w request s).0
run digest (transitions id next progress result failure event_type now w) s =
    (transition id next progress result failure event_type now w s).0
run digest (progresses id progress metadata now w) s =
    (update_progress id progress metadata now w s).0
run digest (cancels id now w seen) s = (cancel id now w seen s).0
run digest (subscribes buffer) s = (subscribe buffer s).0
run digest (unsubscribes id) s = unsubscribe id s
run digest closes s = close s

unfoldable pub run_all : (Text → Text) → List Call → Store → Store
unfolding run
run_all digest [] s = s
run_all digest (c ∷ cs) s = run_all digest cs (run digest c s)
