-- ===== src/Operation/Create/Outcome.antt =====
-- internal/operation/store.go: what `Create` comes to.
use mathlib.Core.Path.{ap, ◌∙◌, sym}
use ya_router.Common.{
  branch, branch_by, Holds, arith, =?_iff, Text, Bool, true, false, Option, none, some,
  lookup-put_self, text_key, ◌≡◌, refl, inl, inr, not, length, leb, ◌=?◌, if◌then◌else◌,
}
use ya_router.Provider.{Time}
use ya_router.Operation.Types.{Event, CreateRequest}
use ya_router.Operation.Metadata.{RequestError, validate_create}
use ya_router.Operation.Store.{
  contents_of, Entry, Store, WriteOutcome, written, failed_before_rename, failed_after_rename, get,
  persist_locked, persisted_of, checkpoint_locked, succeeds, restore_locked, publish, next_of,
  prune_locked,
}
use ya_router.Operation.Lifecycle.{commit, with_entry, persist_failed}
use ya_router.Operation.Create.{
  CreateResult, existing_of, hash_idempotency, create_in, create_valid, create, add_operation,
  reuse_operation,
}
use ya_router.Operation.Create.Reuse.{WasThere, Holds-pruned, IsFound, existing-IsFound}
use ya_router.Operation.Lifecycle.Effects.{SameState, same_state, restored, IsCommitted}

-- What `create` in `s` may come to: nothing, an operation that was there, or a new one.
abbrev pub CreateOutcome : CreateRequest → Text → Text → Store → Store × CreateResult → Type 0
CreateOutcome request hash id s (t, inl e) = SameState s t
CreateOutcome request hash id s (t, inr (r, false)) =
    (t.events ≡ s.events) × ((t.next_sequence ≡ s.next_sequence) × WasThere request hash r s t)
CreateOutcome request hash id s (t, inr (r, true)) = (r.id ≡ id) × IsCommitted id r s t

add_written :
    (request : CreateRequest) (hash id : Text) (e : Entry) (event : Event) (w : WriteOutcome)
    (s t : Store)
    → e.contents.id ≡ id
    → e.contents.sequence ≡ event.sequence
    → event.sequence ≡ next_of t.next_sequence
    → t.next_sequence ≡ s.next_sequence
    → CreateOutcome request hash id s (
      commit w (checkpoint_locked s) event (with_entry id e event t),
      if succeeds w then inr (e.contents, true) else inl persist_failed,
    )
unfolding commit persist_locked checkpoint_locked restore_locked publish get persisted_of
add_written request hash id e event written s t i h k l = (
  i,
  record {
    held = ap contents_of (lookup-put_self id e t.operations);
    on_disk = refl;
    numbered = h ∙ k ∙ ap next_of l;
    counted = sym h;
  },
)
add_written request hash id e event failed_before_rename s t i h k l = record {
  operations = refl;
  events = refl;
  next_sequence = refl;
}
add_written request hash id e event failed_after_rename s t i h k l = record {
  operations = refl;
  events = refl;
  next_sequence = refl;
}

add_operation-CreateOutcome :
    (hash id : Text) (now : Time) (w : WriteOutcome) (request : CreateRequest) (s t : Store)
    → t.next_sequence ≡ s.next_sequence
    → CreateOutcome request hash id s (add_operation hash id now w (checkpoint_locked s) request t)
unfolding add_operation
add_operation-CreateOutcome hash id now w request s t h =
    branch (CreateOutcome request hash id s) (leb t.options.max_operations (length t.operations))
      (restored s t) (add_written request hash id _ _ w s t refl refl refl h)

-- `t` is `s` with some operations left out.
record IsPruned (s t : Store) : Type 0 where
  events : t.events ≡ s.events
  next_sequence : t.next_sequence ≡ s.next_sequence
  kept : (k : Text) (e : Entry) → Holds k e t.operations → Holds k e s.operations

found-WasThere :
    (request : CreateRequest) (hash : Text) (e : Entry) (s t : Store)
    → IsPruned s t
    → IsFound hash e t.operations
    → e.request_digest ≡ request.request_digest
    → WasThere request hash e.contents s t
found-WasThere request hash e s t v found same = (
  found.0,
  (
    e,
    record {
      before = v.kept found.0 e found.1.0;
      after = found.1.0;
      contents = refl;
      keyed = found.1.1.1;
      hash = found.1.1.0;
      digest = same;
    },
  ),
)

reused-CreateOutcome :
    (request : CreateRequest) (hash id : Text) (w : WriteOutcome) (e : Entry) (s t : Store)
    → IsPruned s t
    → WasThere request hash e.contents s t
    → CreateOutcome request hash id s (
        if succeeds w
        then (persist_locked w t, inr (e.contents, false))
        else (restore_locked (checkpoint_locked s) (persist_locked w t), inl persist_failed))
unfolding persist_locked
reused-CreateOutcome request hash id written e s t v there = (v.events, (v.next_sequence, there))
reused-CreateOutcome request hash id failed_before_rename e s t v there = restored s t
reused-CreateOutcome request hash id failed_after_rename e s t v there =
    restored s (persist_locked failed_after_rename t)

reuse_operation-CreateOutcome :
    (hash id : Text) (pruned : Bool) (w : WriteOutcome) (request : CreateRequest) (e : Entry)
    (s t : Store)
    → IsPruned s t
    → IsFound hash e t.operations
    → CreateOutcome request hash id s (reuse_operation pruned w (checkpoint_locked s) request e t)
unfolding reuse_operation persist_locked
reuse_operation-CreateOutcome hash id pruned w request e s t v found =
    branch_by (CreateOutcome request hash id s) (not (e.request_digest =? request.request_digest))
      (λ other. restored s t)
      (λ same.
        let there =
          found-WasThere request hash e s t v found
            (ground (arith, same, =?_iff e.request_digest request.request_digest)) in
        branch (CreateOutcome request hash id s) (not pruned) (v.events, (v.next_sequence, there))
          (reused-CreateOutcome request hash id w e s t v there))

create_in-CreateOutcome :
    (hash : Text) (pruned : Bool) (id : Text) (now : Time) (w : WriteOutcome)
    (request : CreateRequest) (s t : Store) (o : Option Entry)
    → existing_of hash t.operations ≡ o
    → IsPruned s t
    → CreateOutcome request hash id s
        (create_in hash pruned id now w (checkpoint_locked s) request t o)
unfolding create_in
create_in-CreateOutcome hash pruned id now w request s t none found v =
    add_operation-CreateOutcome hash id now w request s t v.next_sequence
create_in-CreateOutcome hash pruned id now w request s t (some e) found v =
    reuse_operation-CreateOutcome hash id pruned w request e s t v
      (existing-IsFound hash e t.operations found)

create_valid-CreateOutcome :
    (digest : Text → Text) (pruned_at now : Time) (id : Text) (w : WriteOutcome)
    (request : CreateRequest) (s : Store) (o : Option RequestError)
    → CreateOutcome request
        (hash_idempotency digest request.owner request.idempotency_key)
        id
        s
        (create_valid digest pruned_at now id w request s o)
unfolding create_valid prune_locked
create_valid-CreateOutcome digest pruned_at now id w request s (some e) = same_state s
create_valid-CreateOutcome digest pruned_at now id w request s none =
    let kept = prune_locked pruned_at s in
    let hash = hash_idempotency digest request.owner request.idempotency_key in
    branch (CreateOutcome request hash id s) s.closed (same_state s) (
      create_in-CreateOutcome hash kept.1 id now w request s kept.0
        (existing_of hash kept.0.operations) refl
        (record {
          events = refl;
          next_sequence = refl;
          kept = λ k e h. Holds-pruned s.options pruned_at k e s.operations h;
        }))

-- A creation fails and leaves the operations, the events and the counter as they were; or returns
-- the record of an operation that was there and still is, whose idempotency hash and request digest
-- are those of the request, the hash not empty, and adds no event; or returns a new one under the
-- given ID, which the store and its file then hold, with the next sequence number.
pub create-CreateOutcome :
    (digest : Text → Text) (checked pruned_at now : Time) (id : Text) (w : WriteOutcome)
    (request : CreateRequest) (s : Store)
    → CreateOutcome request
        (hash_idempotency digest request.owner request.idempotency_key)
        id
        s
        (create digest checked pruned_at now id w request s)
unfolding create
create-CreateOutcome digest checked pruned_at now id w request s =
    create_valid-CreateOutcome digest pruned_at now id w request s (validate_create request checked)
