-- ===== src/Operation/Store.antt =====
-- internal/operation/store.go: the state of the store, its events, pruning and persistence.
-- The state file is part of the state: `disk` is what a restart would read.
use ya_router.Common.{
  ℕ, ◌+◌, ◌-◌, ◌%◌, ◌^◌, Text, Bool, true, false, Option, none, some, List, [], ◌∷◌, ◌++◌, map,
  Dict, lookup, put, remove, text_key, nat_key, ltb, leb, ◌==◌, length, drop_list, text_less, sort,
  not, ◌&&◌, if◌then◌else◌,
}
use ya_router.Provider.{Time}
use ya_router.Operation.Types.{State, terminal, Record, Event, Options}

pub record Entry : Type 0 where
  pub contents : Record
  pub idempotency_hash : Text
  pub request_digest : Text

-- A subscriber's channel: its capacity and the events that wait in it.
pub record Subscriber : Type 0 where
  pub buffer : ℕ
  pub queue : List Event

-- `persistedStore`, of the schema version that the program writes
pub record Persisted : Type 0 where
  pub next_sequence : ℕ
  pub operations : List Entry
  pub events : List Event

pub record Store : Type 0 where
  pub options : Options
  pub operations : Dict Text Entry
  pub events : List Event
  pub next_sequence : ℕ
  pub subscribers : Dict ℕ Subscriber
  pub next_sub_id : ℕ
  pub closed : Bool
  pub disk : Persisted

pub record StoreCheckpoint : Type 0 where
  pub operations : Dict Text Entry
  pub events : List Event
  pub next_sequence : ℕ

-- How `persistSnapshot` ends: with the new file, with an error and the old file, or with an error
-- after the rename, when the directory cannot be opened or synced.
pub data WriteOutcome : Type 0 where
  written failed_before_rename failed_after_rename : WriteOutcome

unfoldable pub checkpoint_locked : Store → StoreCheckpoint
checkpoint_locked s = record {
  operations = s.operations;
  events = s.events;
  next_sequence = s.next_sequence;
}

unfoldable pub restore_locked : StoreCheckpoint → Store → Store
restore_locked c s = record s {
  operations = c.operations;
  events = c.events;
  next_sequence = c.next_sequence;
}

abbrev by_id : Text × Entry → Text × Entry → Bool
by_id (a, _) (b, _) = text_less a b

abbrev entry_at : Text × Entry → Entry
entry_at (_, e) = e

-- what `persistLocked` writes
unfoldable pub persisted_of : Store → Persisted
persisted_of s = record {
  next_sequence = s.next_sequence;
  operations = map entry_at (sort by_id s.operations);
  events = s.events;
}

abbrev pub replaces : WriteOutcome → Bool
replaces failed_before_rename = false
replaces _ = true

abbrev pub succeeds : WriteOutcome → Bool
succeeds written = true
succeeds _ = false

-- the file after `persistLocked`; it returns an error unless `succeeds`
unfoldable pub persist_locked : WriteOutcome → Store → Store
persist_locked w s = if replaces w then record s { disk = persisted_of s } else s

abbrev pub event_after : ℕ → Text → Text → State → Time → Event
event_after sequence id event_type state now = record {
  sequence = sequence;
  operation_id = id;
  event_type = event_type;
  state = state;
  timestamp = now;
}

-- `store.nextSequence++` on a `uint64`
abbrev pub next_of : ℕ → ℕ
next_of n = (n + 1) % 2 ^ 64

-- the events after `appendEventLocked`
unfoldable pub append_event : ℕ → Event → List Event → List Event
append_event max_events event events =
    let grown = events ++ (event ∷ []) in
    if ltb max_events (length grown) then drop_list (length grown - max_events) grown else grown

-- the first loop of `pruneLocked`: `updated_at` is before `now - retention`
abbrev pub is_stale : ℕ → Time → Entry → Bool
is_stale retention now e = terminal e.contents.state && ltb (e.contents.updated_at + retention) now

unfoldable pub prune_stale : ℕ → Time → Dict Text Entry → Dict Text Entry
prune_stale retention now [] = []
prune_stale retention now ((id, e) ∷ m) =
    let rest = prune_stale retention now m in
    if is_stale retention now e then rest else (id, e) ∷ rest

unfoldable pub terminal_candidates : Dict Text Entry → List (Text × Time)
terminal_candidates [] = []
terminal_candidates ((id, e) ∷ m) =
    let rest = terminal_candidates m in
    if terminal e.contents.state then (id, e.contents.updated_at) ∷ rest else rest

abbrev by_update : Text × Time → Text × Time → Bool
by_update (_, t) (_, u) = ltb t u

-- the last loop of `pruneLocked`
unfoldable pub prune_oldest : ℕ → List (Text × Time) → Dict Text Entry → Dict Text Entry
prune_oldest max_operations [] m = m
prune_oldest max_operations ((id, _) ∷ cs) m =
    let rest = prune_oldest max_operations cs (remove id m) in
    if leb (length m) max_operations then m else rest

unfoldable pub pruned : Options → Time → Dict Text Entry → Dict Text Entry
pruned options now m =
    let kept = prune_stale options.retention now m in
    if leb (length kept) options.max_operations
    then kept
    else prune_oldest options.max_operations (sort by_update (terminal_candidates kept)) kept

-- `pruneLocked`: whether it removed anything, which is whether the map got shorter
unfoldable pub prune_locked : Time → Store → Store × Bool
prune_locked now s =
    let kept = pruned s.options now s.operations in
    (record s { operations = kept }, not (length kept == length s.operations))

-- the loop of `publish`; a full channel drops the event
unfoldable pub deliver : Event → Dict ℕ Subscriber → Dict ℕ Subscriber
deliver event [] = []
deliver event ((id, c) ∷ m) =
    (id, if ltb (length c.queue) c.buffer then record c { queue = c.queue ++ (event ∷ []) } else c)
    ∷ deliver event m

unfoldable pub publish : Event → Store → Store
publish event s = record s { subscribers = deliver event s.subscribers }

-- the ID of the subscriber, `none` for the closed channel of a closed store
unfoldable pub subscribe : ℕ → Store → Store × Option ℕ
subscribe buffer s =
    if s.closed
    then (s, none)
    else let id = next_of s.next_sub_id in
      let channel : Subscriber = record {
        buffer = if buffer == 0 then 1 else buffer;
        queue = [];
      } in
      (record s { next_sub_id = id; subscribers = put id channel s.subscribers }, some id)

unfoldable pub unsubscribe : ℕ → Store → Store
unsubscribe id s = record s { subscribers = remove id s.subscribers }

unfoldable pub close : Store → Store
close s = if s.closed then s else record s { closed = true; subscribers = [] }

-- the loop of `Events`
unfoldable pub events_after : ℕ → List Event → List Event
events_after after [] = []
events_after after (e ∷ es) =
    let rest = events_after after es in if ltb after e.sequence then e ∷ rest else rest

abbrev pub contents_of : Option Entry → Option Record
contents_of none = none
contents_of (some e) = some e.contents

-- `none` is the `NotFoundError`
unfoldable pub get : Store → Text → Option Record
get s id = contents_of (lookup id s.operations)
