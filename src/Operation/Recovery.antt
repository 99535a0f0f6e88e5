-- ===== src/Operation/Recovery.antt =====
-- internal/operation/store.go: `Open` and `recoverLocked`.
pub mod Settled
use ya_router.Common.{
  ℕ, zero, suc, Text, codes, Bool, true, false, Option, none, some, List, [], ◌∷◌, ◌++◌, ◌==◌, ◌*◌,
  ◌≡◌, refl, arith, map, Dict, lookup, put, lookup-put, text_key, =?_iff, AllEntries,
  put-AllEntries, ◌⊎◌, inl, inr, ◌=?◌, ltb, leb, length, text_less, sort, not, ◌||◌, if◌then◌else◌,
  Bool-cases,
}
use ya_router.Provider.{Time}
use ya_router.Operation.Types.{
  State, failed, expired, terminal, RecoveryPolicy, recovery_expire, Failure, Record, Event,
  Options, new_failure,
}
use ya_router.Operation.Store.{
  Entry, Store, Persisted, WriteOutcome, persist_locked, succeeds, event_after, next_of,
  append_event, prune_locked,
}

abbrev is_expire : RecoveryPolicy → Bool
is_expire recovery_expire = true
is_expire _ = false

-- whether a record that the restart interrupted has expired
abbrev pub is_overdue : Time → Record → Bool
is_overdue now r = not (ltb now r.expires_at) || is_expire r.recovery_policy

abbrev pub recovered_state : Bool → State
recovered_state overdue = if overdue then expired else failed

abbrev pub recovered_failure : Bool → Failure
recovered_failure overdue =
    new_failure (if overdue then codes "operation_expired" else codes "operation_interrupted") true

-- The record that the loop body of `recoverLocked` leaves, under the new sequence number.
abbrev pub recovered : Time → ℕ → Record → Record
recovered now sequence r =
    let overdue = is_overdue now r in
    record r {
      state = recovered_state overdue;
      failure = some (recovered_failure overdue);
      updated_at = now;
      sequence = sequence;
    }

-- the loop body of `recoverLocked` on the entry of the ID
unfoldable pub recover_entry : Time → Text → Option Entry → Store → Store
recover_entry now id none s = s
recover_entry now id (some e) s =
    if terminal e.contents.state
    then s
    else let r = recovered now (next_of s.next_sequence) e.contents in
      let event = event_after r.sequence id (codes "recovered") r.state now in
      record s {
        operations = put id (record e { contents = r }) s.operations;
        events = append_event s.options.max_events event s.events;
        next_sequence = r.sequence;
      }

unfoldable pub recover_all : Time → List Text → Store → Store
unfolding recover_entry
recover_all now [] s = s
recover_all now (id ∷ ids) s = recover_all now ids (recover_entry now id (lookup id s.operations) s)

-- An operation that `recoverLocked` changes: then it reports a change.
unfoldable pub has_live : Dict Text Entry → Bool
has_live [] = false
has_live ((_, e) ∷ m) = not (terminal e.contents.state) || has_live m

abbrev pub ids_of : Dict Text Entry → List Text
ids_of [] = []
ids_of ((id, _) ∷ m) = id ∷ ids_of m

unfoldable pub recover_locked : Time → Store → Store × Bool
unfolding recover_all
recover_locked now s =
    (recover_all now (sort text_less (ids_of s.operations)) s, has_live s.operations)

-- the defaults of `Open`, for the options that are not positive
abbrev positive_or : ℕ → ℕ → ℕ
positive_or default n = if n == 0 then default else n

unfoldable pub with_defaults : Options → Options
with_defaults o = record {
  max_operations = positive_or 1024 o.max_operations;
  max_events = positive_or 4096 o.max_events;
  retention = positive_or (7 * 24 * 3600 * 1000000000) o.retention;
  default_ttl = positive_or (15 * 60 * 1000000000) o.default_ttl;
}

-- the loop of `Open` that fills the map
unfoldable pub load_operations : List Entry → Dict Text Entry → Dict Text Entry
load_operations [] m = m
load_operations (e ∷ es) m = load_operations es (put e.contents.id e m)

abbrev pub larger : ℕ → ℕ → ℕ
larger a b = if ltb b a then a else b

-- the largest sequence number seen, by the two loops of `Open`
unfoldable pub max_operation_sequence : List Entry → ℕ → ℕ
max_operation_sequence [] n = n
max_operation_sequence (e ∷ es) n = max_operation_sequence es (larger e.contents.sequence n)

unfoldable pub max_event_sequence : List Event → ℕ → ℕ
max_event_sequence [] n = n
max_event_sequence (e ∷ es) n = max_event_sequence es (larger e.sequence n)

unfoldable pub loaded_store : Options → Persisted → Store
unfolding with_defaults load_operations max_operation_sequence max_event_sequence
loaded_store options p = record {
  options = with_defaults options;
  operations = load_operations p.operations [];
  events = p.events;
  next_sequence = max_event_sequence p.events (max_operation_sequence p.operations p.next_sequence);
  subscribers = [];
  next_sub_id = 0;
  closed = false;
  disk = p;
}

-- `Open` on what `loadPersisted` read: `none` is its error, and a missing file reads as the empty
-- state. The result is `none` on an error.
unfoldable pub open_store : Options → Time → Time → WriteOutcome → Option Persisted → Option Store
unfolding loaded_store recover_locked
open_store options recovered_at pruned_at w none = none
open_store options recovered_at pruned_at w (some p) =
    let (s, is_recovered) = recover_locked recovered_at (loaded_store options p) in
    let (t, is_pruned) = prune_locked pruned_at s in
    if not (is_recovered || is_pruned)
    then some t
    else if succeeds w
    then some (persist_locked w t)
    else none
