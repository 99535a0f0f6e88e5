-- ===== src/Operation/Lifecycle/Terminal.antt =====
-- internal/operation/store.go: an operation that has ended stays as it is.
use ya_router.Common.{
  branch, not, Text, codes, true, false, Option, none, some, lookup, text_key, ℤ, ◌≡◌, refl, arith,
}
use ya_router.Provider.{Time}
use ya_router.Operation.Types.{
  State, cancelled, new_failure, terminal, Record, Failure, Fields, allowed_transition,
}
use ya_router.Operation.Store.{Entry, Store, WriteOutcome, get}
use ya_router.Operation.Lifecycle.{
  RecordResult, transition, update_progress, cancel, cancel_record, transition_entry, update_entry,
}

allowed_transition-terminal :
    (from to : State) → terminal from ≡ true → allowed_transition from to ≡ false
unfolding terminal allowed_transition
allowed_transition-terminal from to h = ground arith

transition-terminal :
    (id : Text) (next : State) (progress : ℤ) (result : Fields) (failure : Option Failure)
    (event_type : Text) (now : Time) (w : WriteOutcome) (s : Store) (e : Entry)
    → lookup id s.operations ≡ some e
    → terminal e.contents.state ≡ true
    → (transition id next progress result failure event_type now w s).0 ≡ s
unfolding transition transition_entry
transition-terminal id next progress result failure event_type now w s e l h =
    simp l ground (arith, allowed_transition-terminal e.contents.state next h)

update_progress-terminal :
    (id : Text) (progress : ℤ) (metadata : Fields) (now : Time) (w : WriteOutcome) (s : Store)
    (e : Entry)
    → lookup id s.operations ≡ some e
    → terminal e.contents.state ≡ true
    → (update_progress id progress metadata now w s).0 ≡ s
unfolding update_progress update_entry
update_progress-terminal id progress metadata now w s e l h = simp l ground arith

cancel_record-terminal :
    (id : Text) (now : Time) (w : WriteOutcome) (s : Store) (e : Entry) (o : Option Record)
    → lookup id s.operations ≡ some e
    → terminal e.contents.state ≡ true
    → (cancel_record id now w s o).0 ≡ s
unfolding cancel_record
cancel_record-terminal id now w s e none l h = refl
cancel_record-terminal id now w s e (some r) l h =
    branch (λ (z : Store × RecordResult). z.0 ≡ s) (not r.cancelable) refl
      (transition-terminal id cancelled r.progress none
        (some (new_failure (codes "operation_cancelled") false)) (codes "cancelled") now w s e l h)

-- An operation of the store whose state is terminal is final: `transition` and `update_progress`,
-- with any arguments, and `cancel`, whatever it has seen before, leave the whole store as it is.
pub terminal_unchanged :
    (id : Text) (next : State) (progress : ℤ) (result : Fields) (failure : Option Failure)
    (event_type : Text) (now : Time) (w : WriteOutcome) (seen s : Store) (e : Entry)
    → lookup id s.operations ≡ some e
    → terminal e.contents.state ≡ true
    → ((transition id next progress result failure event_type now w s).0 ≡ s)
      × ((update_progress id progress result now w s).0 ≡ s)
      × ((cancel id now w seen s).0 ≡ s)
unfolding cancel
terminal_unchanged id next progress result failure event_type now w seen s e l h = (
  transition-terminal id next progress result failure event_type now w s e l h,
  update_progress-terminal id progress result now w s e l h,
  cancel_record-terminal id now w s e (get seen id) l h,
)
