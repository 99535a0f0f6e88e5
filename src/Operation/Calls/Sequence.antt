-- ===== src/Operation/Calls/Sequence.antt =====
-- internal/operation/store.go: the event log of a store under any sequence of calls.
use ya_router.Common.{
  branch, ℕ, ◌+◌, ◌^◌, ◌<◌, Text, codes, Bool, false, Option, none, some, List, [], ◌∷◌, ◌≡◌, refl,
  arith, lookup, text_key, ℤ, ◌=?◌, leb, length, not,
}
use ya_router.Provider.{Time}
use ya_router.Operation.Types.{
  State, cancelled, new_failure, terminal, Record, Event, Failure, Fields, CreateRequest,
  allowed_transition,
}
use ya_router.Operation.Metadata.{RequestError, validate_create}
use ya_router.Operation.Store.{
  Entry, Store, WriteOutcome, get, persist_locked, checkpoint_locked, restore_locked, next_of,
  replaces, prune_locked, subscribe, unsubscribe, close, succeeds,
}
use ya_router.Operation.Lifecycle.{
  mutate, transition_entry, transition, update_entry, update_progress, cancel_record, cancel,
}
use ya_router.Operation.Create.{
  create_in, create_valid, create, add_operation, reuse_operation, existing_of, hash_idempotency,
}
use ya_router.Operation.Calls.{
  Call, creates, transitions, progresses, cancels, subscribes, unsubscribes, closes, run, run_all,
}
use ya_router.Operation.Calls.Log.{
  IsSequenced, Advances, SameLog, stays, SameLog-Advances, commit-Advances, next_of-suc,
}

-- The counter of `s` can go up by `n` more.
abbrev pub HasRoom : ℕ → Store → Type 0
HasRoom n s = s.next_sequence + n < 2 ^ 64

same_log : (s : Store) → SameLog s s
same_log s = record { events = refl; next_sequence = refl; options = refl }

-- An update of what the log does not see.
mutate-Advances :
    (id : Text) (e : Entry) (r : Record) (f : Event) (w : WriteOutcome) (s : Store)
    → f.sequence ≡ next_of s.next_sequence
    → HasRoom 1 s
    → IsSequenced s
    → Advances s (mutate id e r f w s).0
unfolding mutate
mutate-Advances id e r f w s h room v =
    commit-Advances id (record e { contents = r }) f w s s
      (omega (arith, h, next_of-suc s.next_sequence room)) (same_log s) v

abbrev After {ℓ} : {A : Type ℓ} → Store → Store × A → Type 0
After s (t, _) = Advances s t

transition_entry-Advances :
    (id : Text) (next : State) (progress : ℤ) (result : Fields) (failure : Option Failure)
    (event_type : Text) (now : Time) (w : WriteOutcome) (s : Store) (o : Option Entry)
    → HasRoom 1 s
    → IsSequenced s
    → Advances s (transition_entry id next progress result failure event_type now w s o).0
unfolding transition_entry
transition_entry-Advances id next progress result failure event_type now w s none room v = stays s v
transition_entry-Advances id next progress result failure event_type now w s (some e) room v =
    branch (After s) (not (allowed_transition e.contents.state next)) (stays s v)
      (mutate-Advances id e _ _ w s refl room v)

transition-Advances :
    (id : Text) (next : State) (progress : ℤ) (result : Fields) (failure : Option Failure)
    (event_type : Text) (now : Time) (w : WriteOutcome) (s : Store)
    → HasRoom 1 s
    → IsSequenced s
    → Advances s (transition id next progress result failure event_type now w s).0
unfolding transition
transition-Advances id next progress result failure event_type now w s room v =
    branch (After s) s.closed (stays s v) (
      transition_entry-Advances id next progress result failure event_type now w s
        (lookup id s.operations) room v)

update_entry-Advances :
    (id : Text) (progress : ℤ) (metadata : Fields) (now : Time) (w : WriteOutcome) (s : Store)
    (o : Option Entry)
    → HasRoom 1 s
    → IsSequenced s
    → Advances s (update_entry id progress metadata now w s o).0
unfolding update_entry
update_entry-Advances id progress metadata now w s none room v = stays s v
update_entry-Advances id progress metadata now w s (some e) room v =
    branch (After s) (terminal e.contents.state) (stays s v)
      (mutate-Advances id e _ _ w s refl room v)

cancel_record-Advances :
    (id : Text) (now : Time) (w : WriteOutcome) (s : Store) (o : Option Record)
    → HasRoom 1 s
    → IsSequenced s
    → Advances s (cancel_record id now w s o).0
unfolding cancel_record
cancel_record-Advances id now w s none room v = stays s v
cancel_record-Advances id now w s (some r) room v =
    branch (After s) (not r.cancelable) (stays s v) (
      transition-Advances id cancelled r.progress none
        (some (new_failure (codes "operation_cancelled") false)) (codes "cancelled") now w s room v)

restored-SameLog : (s t : Store) → SameLog s t → SameLog s (restore_locked (checkpoint_locked s) t)
unfolding restore_locked checkpoint_locked
restored-SameLog s t l = record { events = refl; next_sequence = refl; options = l.options }

pub persisted-SameLog :
    (w : WriteOutcome) (s t : Store) → SameLog s t → SameLog s (persist_locked w t)
unfolding persist_locked
persisted-SameLog w s t l =
    branch (SameLog s) (replaces w)
      (record { events = l.events; next_sequence = l.next_sequence; options = l.options }) l

add_operation-Advances :
    (hash id : Text) (now : Time) (w : WriteOutcome) (request : CreateRequest) (s t : Store)
    → SameLog s t
    → HasRoom 1 s
    → IsSequenced s
    → Advances s (add_operation hash id now w (checkpoint_locked s) request t).0
unfolding add_operation
add_operation-Advances hash id now w request s t l room v =
    branch (After s) (leb t.options.max_operations (length t.operations))
      (SameLog-Advances s _ (restored-SameLog s t l) v)
      (commit-Advances id _ _ w s t (next_of-suc t.next_sequence (rw l.next_sequence room)) l v)

reuse_operation-Advances :
    (pruned : Bool) (w : WriteOutcome) (request : CreateRequest) (e : Entry) (s t : Store)
    → SameLog s t
    → IsSequenced s
    → Advances s (reuse_operation pruned w (checkpoint_locked s) request e t).0
unfolding reuse_operation
reuse_operation-Advances pruned w request e s t l v =
    branch (After s) (not (e.request_digest =? request.request_digest))
      (SameLog-Advances s _ (restored-SameLog s t l) v)
      (branch (After s) (not pruned) (SameLog-Advances s t l v) (
        branch (After s) (succeeds w) (SameLog-Advances s _ (persisted-SameLog w s t l) v)
          (SameLog-Advances s _ (restored-SameLog s _ (persisted-SameLog w s t l)) v)))

create_in-Advances :
    (hash : Text) (pruned : Bool) (id : Text) (now : Time) (w : WriteOutcome)
    (request : CreateRequest) (s t : Store) (o : Option Entry)
    → SameLog s t
    → HasRoom 1 s
    → IsSequenced s
    → Advances s (create_in hash pruned id now w (checkpoint_locked s) request t o).0
unfolding create_in
create_in-Advances hash pruned id now w request s t none l room v =
    add_operation-Advances hash id now w request s t l room v
create_in-Advances hash pruned id now w request s t (some e) l room v =
    reuse_operation-Advances pruned w request e s t l v

create_valid-Advances :
    (digest : Text → Text) (pruned_at now : Time) (id : Text) (w : WriteOutcome)
    (request : CreateRequest) (s : Store) (o : Option RequestError)
    → HasRoom 1 s
    → IsSequenced s
    → Advances s (create_valid digest pruned_at now id w request s o).0
unfolding create_valid prune_locked
create_valid-Advances digest pruned_at now id w request s (some e) room v = stays s v
create_valid-Advances digest pruned_at now id w request s none room v =
    let kept = prune_locked pruned_at s in
    let hash = hash_idempotency digest request.owner request.idempotency_key in
    branch (After s) s.closed (stays s v) (
      create_in-Advances hash kept.1 id now w request s kept.0 (existing_of hash kept.0.operations)
        (record { events = refl; next_sequence = refl; options = refl }) room v)

run-Advances :
    (digest : Text → Text) (c : Call) (s : Store)
    → HasRoom 1 s
    → IsSequenced s
    → Advances s (run digest c s)
unfolding run create update_progress cancel subscribe unsubscribe close
run-Advances digest (creates checked pruned_at now id w request) s room v =
    create_valid-Advances digest pruned_at now id w request s (validate_create request checked) room
      v
run-Advances digest (transitions id next progress result failure event_type now w) s room v =
    transition-Advances id next progress result failure event_type now w s room v
run-Advances digest (progresses id progress metadata now w) s room v =
    branch (After s) s.closed (stays s v)
      (update_entry-Advances id progress metadata now w s (lookup id s.operations) room v)
run-Advances digest (cancels id now w seen) s room v =
    cancel_record-Advances id now w s (get seen id) room v
run-Advances digest (subscribes buffer) s room v = branch (After s) s.closed (stays s v) (record {
  sequenced = record { increasing = v.increasing; numbered = v.numbered; bounded = v.bounded };
  counted = omega arith;
})
run-Advances digest (unsubscribes id) s room v = record {
  sequenced = record { increasing = v.increasing; numbered = v.numbered; bounded = v.bounded };
  counted = omega arith;
}
run-Advances digest closes s room v = branch (Advances s) s.closed (stays s v) (record {
  sequenced = record { increasing = v.increasing; numbered = v.numbered; bounded = v.bounded };
  counted = omega arith;
})

pub run_all-IsSequenced :
    (digest : Text → Text) (cs : List Call) (s : Store)
    → HasRoom (length cs) s
    → IsSequenced s
    → IsSequenced (run_all digest cs s)
unfolding run_all
run_all-IsSequenced digest [] s room v = v
run_all-IsSequenced digest (c ∷ cs) s room v =
    let one = run-Advances digest c s (omega (arith, room)) v in
    run_all-IsSequenced digest cs (run digest c s) (omega (arith, room, one.counted)) one.sequenced
