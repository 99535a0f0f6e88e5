-- ===== src/Operation/Lifecycle/Effects.antt =====
-- internal/operation/store.go: a call either commits its change to memory and to the state file
-- or leaves no trace in memory.
use mathlib.Core.Path.{ap}
use ya_router.Common.{
  branch, Text, codes, false, Option, none, some, lookup, lookup-put_self, text_key, ℤ, ◌≡◌, refl,
  inl, inr, not,
}
use ya_router.Provider.{Time}
use ya_router.Operation.Types.{
  State, cancelled, new_failure, terminal, Record, Event, Failure, Fields, allowed_transition,
}
use ya_router.Operation.Store.{
  contents_of, Entry, Store, WriteOutcome, written, failed_before_rename, failed_after_rename, get,
  persist_locked, persisted_of, checkpoint_locked, restore_locked, publish, next_of,
}
use ya_router.Operation.Lifecycle.{
  RecordResult, commit, mutate, transition, update_progress, cancel, transition_entry, update_entry,
  cancel_record,
}

-- The operations, the events and the sequence number of `t` are those of `s`.
pub record SameState (s t : Store) : Type 0 where
  pub operations : t.operations ≡ s.operations
  pub events : t.events ≡ s.events
  pub next_sequence : t.next_sequence ≡ s.next_sequence

-- The store `t` holds the record `r` under `id`, and so does its file.
pub record IsCommitted (id : Text) (r : Record) (s t : Store) : Type 0 where
  pub held : get t id ≡ some r
  pub on_disk : t.disk ≡ persisted_of t
  pub numbered : r.sequence ≡ next_of s.next_sequence
  pub counted : t.next_sequence ≡ r.sequence

-- What a mutation of `id` in `s` may come to.
abbrev pub RecordOutcome : Text → Store → Store × RecordResult → Type 0
RecordOutcome id s (t, inl e) = SameState s t
RecordOutcome id s (t, inr r) = IsCommitted id r s t

pub same_state : (s : Store) → SameState s s
same_state s = record { operations = refl; events = refl; next_sequence = refl }

pub restored : (s t : Store) → SameState s (restore_locked (checkpoint_locked s) t)
unfolding checkpoint_locked restore_locked
restored s t = record { operations = refl; events = refl; next_sequence = refl }

mutate-RecordOutcome :
    (id : Text) (e : Entry) (r : Record) (event : Event) (w : WriteOutcome) (s : Store)
    → r.sequence ≡ next_of s.next_sequence
    → event.sequence ≡ r.sequence
    → RecordOutcome id s (mutate id e r event w s)
unfolding mutate commit persist_locked checkpoint_locked restore_locked publish get persisted_of
mutate-RecordOutcome id e r event written s h k = record {
  held = ap contents_of (lookup-put_self id (record e { contents = r }) s.operations);
  on_disk = refl;
  numbered = h;
  counted = k;
}
mutate-RecordOutcome id e r event failed_before_rename s h k = record {
  operations = refl;
  events = refl;
  next_sequence = refl;
}
mutate-RecordOutcome id e r event failed_after_rename s h k = record {
  operations = refl;
  events = refl;
  next_sequence = refl;
}

transition_entry-RecordOutcome :
    (id : Text) (next : State) (progress : ℤ) (result : Fields) (failure : Option Failure)
    (event_type : Text) (now : Time) (w : WriteOutcome) (s : Store) (o : Option Entry)
    → RecordOutcome id s (transition_entry id next progress result failure event_type now w s o)
unfolding transition_entry
transition_entry-RecordOutcome id next progress result failure event_type now w s none =
    same_state s
transition_entry-RecordOutcome id next progress result failure event_type now w s (some e) =
    branch (RecordOutcome id s) (not (allowed_transition e.contents.state next)) (same_state s)
      (mutate-RecordOutcome id e _ _ w s refl refl)

-- A transition either fails and leaves the operations, the events and the counter as they were,
-- or returns the record that the store and its file then hold, under the next sequence number.
pub transition-RecordOutcome :
    (id : Text) (next : State) (progress : ℤ) (result : Fields) (failure : Option Failure)
    (event_type : Text) (now : Time) (w : WriteOutcome) (s : Store)
    → RecordOutcome id s (transition id next progress result failure event_type now w s)
unfolding transition
transition-RecordOutcome id next progress result failure event_type now w s =
    branch (RecordOutcome id s) s.closed (same_state s) (
      transition_entry-RecordOutcome id next progress result failure event_type now w s
        (lookup id s.operations))

update_entry-RecordOutcome :
    (id : Text) (progress : ℤ) (metadata : Fields) (now : Time) (w : WriteOutcome) (s : Store)
    (o : Option Entry)
    → RecordOutcome id s (update_entry id progress metadata now w s o)
unfolding update_entry
update_entry-RecordOutcome id progress metadata now w s none = same_state s
update_entry-RecordOutcome id progress metadata now w s (some e) =
    branch (RecordOutcome id s) (terminal e.contents.state) (same_state s)
      (mutate-RecordOutcome id e _ _ w s refl refl)

-- An update of the progress either fails and leaves the operations, the events and the counter as
-- they were, or returns the record that the store and its file then hold, under the next number.
pub update_progress-RecordOutcome :
    (id : Text) (progress : ℤ) (metadata : Fields) (now : Time) (w : WriteOutcome) (s : Store)
    → RecordOutcome id s (update_progress id progress metadata now w s)
unfolding update_progress
update_progress-RecordOutcome id progress metadata now w s =
    branch (RecordOutcome id s) s.closed (same_state s)
      (update_entry-RecordOutcome id progress metadata now w s (lookup id s.operations))

cancel_record-RecordOutcome :
    (id : Text) (now : Time) (w : WriteOutcome) (s : Store) (o : Option Record)
    → RecordOutcome id s (cancel_record id now w s o)
unfolding cancel_record
cancel_record-RecordOutcome id now w s none = same_state s
cancel_record-RecordOutcome id now w s (some r) =
    branch (RecordOutcome id s) (not r.cancelable) (same_state s) (
      transition-RecordOutcome id cancelled r.progress none
        (some (new_failure (codes "operation_cancelled") false)) (codes "cancelled") now w s)

pub cancel-RecordOutcome :
    (id : Text) (now : Time) (w : WriteOutcome) (seen s : Store)
    → RecordOutcome id s (cancel id now w seen s)
unfolding cancel
cancel-RecordOutcome id now w seen s = cancel_record-RecordOutcome id now w s (get seen id)
