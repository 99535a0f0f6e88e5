-- ===== src/Operation/Lifecycle.antt =====
-- internal/operation/store.go: moving an operation to another state, reporting its progress, and
-- cancelling it. The time of the one reading of the clock is an argument, and so is how writing
-- the state file ends.
pub mod Effects
pub mod Terminal
use ya_router.Common.{
  ℕ, ◌+◌, Text, codes, Bool, true, false, Option, none, some, List, [], ◌∷◌, ◌++◌, Dict, lookup,
  put, text_key, ℤ, pos, negsuc, ◌⊎◌, inl, inr, ◌=?◌, ltb, leb, length, trim_space, is_empty, not,
  if◌then◌else◌,
}
use ya_router.Provider.{Time}
use ya_router.Operation.Types.{
  State, pending, cancelled, terminal, unset, RecoveryPolicy, recovery_fail, Failure, Fields,
  Record, Event, CreateRequest, new_failure, allowed_transition,
}
use ya_router.Operation.Metadata.{RequestError, sanitize_metadata, validate_create}
use ya_router.Operation.Store.{
  Entry, Store, StoreCheckpoint, WriteOutcome, checkpoint_locked, restore_locked, persist_locked,
  succeeds, event_after, next_of, append_event, prune_locked, publish, get,
}

pub data OperationError : Type 0 where
  invalid_request : RequestError → OperationError
  store_closed persist_failed capacity idempotency_conflict : OperationError
  not_found not_cancelable : Text → OperationError
  invalid_transition : Text → State → State → OperationError

-- The end of every mutation: the file is written, then the event goes out; on an error the
-- checkpoint comes back.
unfoldable pub commit : WriteOutcome → StoreCheckpoint → Event → Store → Store
unfolding persist_locked
commit w checkpoint event s =
    if succeeds w
    then publish event (persist_locked w s)
    else restore_locked checkpoint (persist_locked w s)

-- What `nextEventLocked` and `appendEventLocked` do to the store, and the entry that takes its
-- place under the ID.
abbrev pub with_entry : Text → Entry → Event → Store → Store
with_entry id e event s = record s {
  operations = put id e s.operations;
  events = append_event s.options.max_events event s.events;
  next_sequence = event.sequence;
}

abbrev pub clamp : ℤ → ℤ
clamp (negsuc _) = pos 0
clamp (pos n) = if ltb 100 n then pos 100 else pos n

abbrev clean_failure : Option Failure → Option Failure
clean_failure none = none
clean_failure (some f) = some (new_failure f.code f.retryable)

abbrev event_type_of : Text → Text
event_type_of t = if is_empty t then codes "state_changed" else t

-- the record of `Transition` after its assignments
abbrev pub transitioned : State → ℤ → Fields → Option Failure → Time → ℕ → Record → Record
transitioned next progress result failure now sequence r = record r {
  state = next;
  progress = clamp progress;
  updated_at = now;
  result = sanitize_metadata result;
  failure = clean_failure failure;
  sequence = sequence;
}

abbrev pub RecordResult : Type 0
RecordResult = OperationError ⊎ Record

-- a mutation of the entry `e` that makes its record `r`
unfoldable pub mutate : Text → Entry → Record → Event → WriteOutcome → Store → Store × RecordResult
unfolding commit
mutate id e r event w s = (
  commit w (checkpoint_locked s) event (with_entry id (record e { contents = r }) event s),
  if succeeds w then inr r else inl persist_failed,
)

-- `Transition` after its lookup, whose entry it is given
unfoldable pub transition_entry :
    Text
    → State
    → ℤ
    → Fields
    → Option Failure
    → Text
    → Time
    → WriteOutcome
    → Store
    → Option Entry
    → Store × RecordResult
unfolding mutate
transition_entry id next progress result failure event_type now w s none = (s, inl (not_found id))
transition_entry id next progress result failure event_type now w s (some e) =
    if not (allowed_transition e.contents.state next)
    then (s, inl (invalid_transition id e.contents.state next))
    else let event = event_after (next_of s.next_sequence) id (event_type_of event_type) next now in
      let r = transitioned next progress result failure now event.sequence e.contents in
      mutate id e r event w s

unfoldable pub transition :
    Text
    → State
    → ℤ
    → Fields
    → Option Failure
    → Text
    → Time
    → WriteOutcome
    → Store
    → Store × RecordResult
unfolding transition_entry
transition id next progress result failure event_type now w s =
    if s.closed
    then (s, inl store_closed)
    else transition_entry id next progress result failure event_type now w s
        (lookup id s.operations)

abbrev result_of : Fields → Fields → Fields
result_of none old = old
result_of (some m) old = sanitize_metadata (some m)

-- the record of `UpdateProgress` after its assignments
abbrev pub progressed : ℤ → Fields → Time → ℕ → Record → Record
progressed progress metadata now sequence r = record r {
  progress = clamp progress;
  updated_at = now;
  result = result_of metadata r.result;
  sequence = sequence;
}

-- `UpdateProgress` after its lookup, whose entry it is given
unfoldable pub update_entry :
    Text → ℤ → Fields → Time → WriteOutcome → Store → Option Entry → Store × RecordResult
unfolding mutate
update_entry id progress metadata now w s none = (s, inl (not_found id))
update_entry id progress metadata now w s (some e) =
    if terminal e.contents.state
    then (s, inl (invalid_transition id e.contents.state e.contents.state))
    else let event =
        event_after (next_of s.next_sequence) id (codes "progress") e.contents.state now in
      let r = progressed progress metadata now event.sequence e.contents in mutate id e r event w s

unfoldable pub update_progress :
    Text → ℤ → Fields → Time → WriteOutcome → Store → Store × RecordResult
unfolding update_entry
update_progress id progress metadata now w s =
    if s.closed
    then (s, inl store_closed)
    else update_entry id progress metadata now w s (lookup id s.operations)

-- `Cancel` after its `Get`, whose record it is given
unfoldable pub cancel_record :
    Text → Time → WriteOutcome → Store → Option Record → Store × RecordResult
unfolding transition
cancel_record id now w s none = (s, inl (not_found id))
cancel_record id now w s (some r) =
    if not r.cancelable
    then (s, inl (not_cancelable id))
    else let failure = new_failure (codes "operation_cancelled") false in
      transition id cancelled r.progress none (some failure) (codes "cancelled") now w s

-- `Cancel`, which unlocks the store after its `Get` and locks it again in `Transition`: it reads the
-- record in the store `seen` and makes the transition in `s`, to which other calls may have led.
unfoldable pub cancel : Text → Time → WriteOutcome → Store → Store → Store × RecordResult
unfolding cancel_record get
cancel id now w seen s = cancel_record id now w s (get seen id)
