-- ===== src/Operation/Calls/Opened.antt =====
-- internal/operation/store.go: the event log of a store from `Open` on.
use ya_router.Common.{
  branch, Bool, if◌then◌else◌, ℕ, ◌+◌, ◌≤◌, Text, Option, none, some, List, [], ◌∷◌, ◌≡◌, refl,
  subst, arith, lookup, text_key, text_less, length, length-sort, sort, not, All,
}
use ya_router.Provider.{Time}
use ya_router.Operation.Types.{terminal, Event, Options}
use ya_router.Operation.Store.{
  Entry, Store, Persisted, WriteOutcome, persist_locked, prune_locked, succeeds, next_of,
}
use ya_router.Operation.Recovery.{
  larger, recovered, recover_entry, recover_all, ids_of, recover_locked, with_defaults,
  max_operation_sequence, max_event_sequence, loaded_store, open_store,
}
use ya_router.Operation.Calls.{Call, run_all}
use ya_router.Operation.Calls.Log.{
  Increasing, IsSequenced, Advances, SameLog, SameLog-Advances, stays, next_of-suc,
  with_entry-IsSequenced,
}
use ya_router.Operation.Calls.Sequence.{HasRoom, persisted-SameLog, run_all-IsSequenced}

-- The log of a file: its numbers go up, and it is not longer than the options allow.
pub record IsLog (options : Options) (p : Persisted) : Type 0 where
  pub increasing : Increasing p.events
  pub bounded : length p.events ≤ (with_defaults options).max_events

le-max_event_sequence : (es : List Event) (n : ℕ) → n ≤ max_event_sequence es n
unfolding max_event_sequence
le-max_event_sequence [] n = omega arith
le-max_event_sequence (e ∷ es) n = ground (arith, le-max_event_sequence es (larger e.sequence n))

event-max_event_sequence :
    (es : List Event) (n : ℕ) → All (λ e. e.sequence ≤ max_event_sequence es n) es
unfolding max_event_sequence
event-max_event_sequence [] n = tt
event-max_event_sequence (e ∷ es) n =
    (ground (arith, le-max_event_sequence es (larger e.sequence n)), event-max_event_sequence es _)

loaded-IsSequenced :
    (options : Options) (p : Persisted) → IsLog options p → IsSequenced (loaded_store options p)
unfolding loaded_store
loaded-IsSequenced options p v = record {
  increasing = v.increasing;
  numbered =
      event-max_event_sequence p.events (max_operation_sequence p.operations p.next_sequence);
  bounded = v.bounded;
}

recover_entry-Advances :
    (now : Time) (id : Text) (o : Option Entry) (s : Store)
    → HasRoom 1 s
    → IsSequenced s
    → Advances s (recover_entry now id o s)
unfolding recover_entry
recover_entry-Advances now id none s room v = stays s v
recover_entry-Advances now id (some e) s room v =
    let next = next_of-suc s.next_sequence room in
    let r = recovered now (next_of s.next_sequence) e.contents in
    branch (Advances s) (terminal e.contents.state) (stays s v) (record {
      sequenced = with_entry-IsSequenced id (record e { contents = r }) _ s next v;
      counted = omega (arith, next);
    })

-- The log of `t` is in order, and its counter is at most `n` above that of `s`.
record IsWithin (n : ℕ) (s t : Store) : Type 0 where
  sequenced : IsSequenced t
  counted : t.next_sequence ≤ s.next_sequence + n

recover_all-IsWithin :
    (now : Time) (ids : List Text) (s : Store)
    → HasRoom (length ids) s
    → IsSequenced s
    → IsWithin (length ids) s (recover_all now ids s)
unfolding recover_all
recover_all-IsWithin now [] s room v = record { sequenced = v; counted = omega arith }
recover_all-IsWithin now (id ∷ ids) s room v =
    let one = recover_entry-Advances now id (lookup id s.operations) s (omega (arith, room)) v in
    let rest =
      recover_all-IsWithin now ids (recover_entry now id (lookup id s.operations) s)
        (omega (arith, room, one.counted)) one.sequenced in
    record { sequenced = rest.sequenced; counted = omega (arith, rest.counted, one.counted) }

-- the number of operations that `Open` loads
abbrev pub loaded_count : Options → Persisted → ℕ
loaded_count options p = length (ids_of (loaded_store options p).operations)

-- what it takes for the result of `Open` to be in order
abbrev OpensWithin : ℕ → Store → Option Store → Type 0
OpensWithin n s x = (t : Store) → x ≡ some t → IsWithin n s t

SameLog-IsWithin : (n : ℕ) (s t u : Store) → SameLog t u → IsWithin n s t → IsWithin n s u
SameLog-IsWithin n s t u l v = record {
  sequenced = (SameLog-Advances t u l v.sequenced).sequenced;
  counted = ground (arith, v.counted, l.next_sequence);
}

some-OpensWithin : (n : ℕ) (s t : Store) → IsWithin n s t → OpensWithin n s (some t)
some-OpensWithin n s t v u e = subst (IsWithin n s) (ground (arith, e)) v

finish-OpensWithin :
    (n : ℕ) (s t : Store) (w : WriteOutcome) (changed : Bool)
    → IsWithin n s t
    → OpensWithin n s
        (if not changed then some t else if succeeds w then some (persist_locked w t) else none)
finish-OpensWithin n s t w changed v =
    branch (OpensWithin n s) (not changed) (some-OpensWithin n s t v) (
      branch (OpensWithin n s) (succeeds w)
        (some-OpensWithin n s (persist_locked w t) (
          SameLog-IsWithin n s t (persist_locked w t)
            (persisted-SameLog w t t
              (record { events = refl; next_sequence = refl; options = refl }))
            v))
        (λ u e. absurd (ground (arith, e))))

open-IsWithin :
    (options : Options) (recovered_at pruned_at : Time) (w : WriteOutcome) (p : Persisted)
    → IsLog options p
    → HasRoom (loaded_count options p) (loaded_store options p)
    → OpensWithin
        (loaded_count options p)
        (loaded_store options p)
        (open_store options recovered_at pruned_at w (some p))
unfolding open_store recover_locked prune_locked
open-IsWithin options recovered_at pruned_at w p v room =
    let loaded = loaded_store options p in
    let ids = sort text_less (ids_of loaded.operations) in
    let count = length-sort text_less (ids_of loaded.operations) in
    let all =
      recover_all-IsWithin recovered_at ids loaded (omega (arith, room, count))
        (loaded-IsSequenced options p v) in
    finish-OpensWithin (loaded_count options p) loaded _ w _ (record {
      sequenced = record {
        increasing = all.sequenced.increasing;
        numbered = all.sequenced.numbered;
        bounded = all.sequenced.bounded;
      };
      counted = omega (arith, all.counted, count);
    })

-- From `Open` on and under any calls, the events of the log stand in the order of strictly
-- increasing numbers, none of them above the counter, and there are never more of them than
-- `max_events`. The conditions: the events of the file that is opened, if there is one, stand in
-- this order and are not more than `max_events`, which `Open` does not check; the file is opened
-- without an error; and the 64-bit counter has room for one number for each operation of the file
-- and for each call.
pub open-run_all-IsSequenced :
    (digest : Text → Text) (options : Options) (recovered_at pruned_at : Time) (w : WriteOutcome)
    (p : Persisted) (s : Store) (cs : List Call)
    → IsLog options p
    → open_store options recovered_at pruned_at w (some p) ≡ some s
    → HasRoom (loaded_count options p + length cs) (loaded_store options p)
    → IsSequenced (run_all digest cs s)
open-run_all-IsSequenced digest options recovered_at pruned_at w p s cs v opened room =
    let within =
      open-IsWithin options recovered_at pruned_at w p v (omega (arith, room)) s opened in
    run_all-IsSequenced digest cs s (omega (arith, room, within.counted)) within.sequenced
