-- ===== src/Operation/Create.antt =====
-- internal/operation/store.go: creating an operation. Each call of the clock is an argument, and so
-- are the ID that `newID` draws and the hexadecimal SHA-256 digest.
pub mod Reuse
pub mod Outcome
use ya_router.Common.{
  ℕ, ◌+◌, Text, codes, Bool, true, false, Option, none, some, List, [], ◌∷◌, ◌++◌, Dict, lookup,
  put, text_key, ℤ, pos, negsuc, ◌⊎◌, inl, inr, ◌=?◌, ltb, leb, length, trim_space, is_empty, not,
  if◌then◌else◌,
}
use ya_router.Provider.{Time}
use ya_router.Operation.Types.{
  State, pending, cancelled, terminal, unset, RecoveryPolicy, recovery_fail, Failure, Fields,
  Record, Event, CreateRequest, new_failure, allowed_transition,
}
use ya_router.Operation.Metadata.{RequestError, sanitize_metadata, validate_create}
use ya_router.Operation.Store.{
  Entry, Store, StoreCheckpoint, WriteOutcome, checkpoint_locked, restore_locked, persist_locked,
  succeeds, event_after, next_of, append_event, prune_locked, publish, get,
}
use ya_router.Operation.Lifecycle.{
  OperationError, invalid_request, store_closed, persist_failed, capacity, idempotency_conflict,
  commit, with_entry,
}

unfoldable pub hash_idempotency : (Text → Text) → Text → Text → Text
hash_idempotency digest owner key =
    if is_empty (trim_space key) then [] else digest (owner ++ 0 ∷ trim_space key)

-- the loop of `Create` over the operations
unfoldable pub find_existing : Text → Dict Text Entry → Option Entry
find_existing hash [] = none
find_existing hash ((_, e) ∷ m) =
    let rest = find_existing hash m in if e.idempotency_hash =? hash then some e else rest

abbrev pub policy_of : RecoveryPolicy → RecoveryPolicy
policy_of unset = recovery_fail
policy_of p = p

abbrev pub created_record : CreateRequest → Text → Time → ℕ → Record
created_record request id now sequence = record {
  id = id;
  kind = request.kind;
  target = trim_space request.target;
  owner = trim_space request.owner;
  state = pending;
  progress = pos 0;
  cancelable = request.cancelable;
  recovery_policy = policy_of request.recovery_policy;
  created_at = now;
  updated_at = now;
  expires_at = request.expires_at;
  sequence = sequence;
  failure = none;
  metadata = sanitize_metadata request.metadata;
  result = none;
}

abbrev pub CreateResult : Type 0
CreateResult = OperationError ⊎ (Record × Bool)

-- the part of `Create` that adds an operation to the pruned store `s`
unfoldable pub add_operation :
    Text
    → Text
    → Time
    → WriteOutcome
    → StoreCheckpoint
    → CreateRequest
    → Store
    → Store × CreateResult
unfolding commit
add_operation hash id now w checkpoint request s =
    if leb s.options.max_operations (length s.operations)
    then (restore_locked checkpoint s, inl capacity)
    else let event = event_after (next_of s.next_sequence) id (codes "created") pending now in
      let r = created_record request id now event.sequence in
      let e : Entry = record {
        contents = r;
        idempotency_hash = hash;
        request_digest = request.request_digest;
      } in
      (
        commit w checkpoint event (with_entry id e event s),
        if succeeds w then inr (r, true) else inl persist_failed,
      )

-- the body of the loop for an operation with the hash, on the pruned store `s`
unfoldable pub reuse_operation :
    Bool → WriteOutcome → StoreCheckpoint → CreateRequest → Entry → Store → Store × CreateResult
unfolding persist_locked
reuse_operation pruned w checkpoint request existing s =
    if not (existing.request_digest =? request.request_digest)
    then (restore_locked checkpoint s, inl idempotency_conflict)
    else if not pruned
    then (s, inr (existing.contents, false))
    else if succeeds w
    then (persist_locked w s, inr (existing.contents, false))
    else (restore_locked checkpoint (persist_locked w s), inl persist_failed)

abbrev pub existing_of : Text → Dict Text Entry → Option Entry
existing_of hash m = if is_empty hash then none else find_existing hash m

-- `Create` after the loop, on the pruned store
unfoldable pub create_in :
    Text
    → Bool
    → Text
    → Time
    → WriteOutcome
    → StoreCheckpoint
    → CreateRequest
    → Store
    → Option Entry
    → Store × CreateResult
unfolding add_operation reuse_operation
create_in hash pruned id now w checkpoint request t none =
    add_operation hash id now w checkpoint request t
create_in hash pruned id now w checkpoint request t (some existing) =
    reuse_operation pruned w checkpoint request existing t

-- `Create` after `validateCreate`, whose error it is given
unfoldable pub create_valid :
    (Text → Text)
    → Time
    → Time
    → Text
    → WriteOutcome
    → CreateRequest
    → Store
    → Option RequestError
    → Store × CreateResult
unfolding create_in
create_valid digest pruned_at now id w request s (some e) = (s, inl (invalid_request e))
create_valid digest pruned_at now id w request s none =
    if s.closed
    then (s, inl store_closed)
    else let (t, pruned) = prune_locked pruned_at s in
      let hash = hash_idempotency digest request.owner request.idempotency_key in
      create_in hash pruned id now w (checkpoint_locked s) request t (existing_of hash t.operations)

-- the clock is read by `validateCreate` at `checked`, by `pruneLocked` at `pruned_at`, and for the
-- record at `now`
unfoldable pub create :
    (Text → Text)
    → Time
    → Time
    → Time
    → Text
    → WriteOutcome
    → CreateRequest
    → Store
    → Store × CreateResult
unfolding create_valid
create digest checked pruned_at now id w request s =
    create_valid digest pruned_at now id w request s (validate_create request checked)
