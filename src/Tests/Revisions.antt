-- ===== src/Tests/Revisions.antt =====
-- Calls and restarts of the state manager, with a number for the configuration.
use ya_router.Common.{ℕ, none, some, [], ◌∷◌, inr, ◌≡◌, ◌≤◌, refl, arith, false, true}
use ya_router.State.{Options, Disk, Manager, Request, done, config_renamed, written, save}
use ya_router.State.Mutations.{apply, preview}
use ya_router.State.Load.{load}
use ya_router.State.Calls.{Call, applies, call, run}
use ya_router.State.Revisions.{revision_names_snapshot}
use ya_router.State.Recovery.{RestartsWith, saved_survives}

abbrev numbers : Options ℕ
numbers = record {
  initial = some 7;
  loader = inr;
  validator = inr;
  actor = [];
  digest = λ c. c ∷ [];
  diff_paths = λ a b. [];
}

abbrev empty_disk : Disk ℕ
empty_disk = record { config = none; metadata = none; backup = none; metadata_backup = none }

abbrev started : Manager ℕ
started = record {
  snapshot = record {
    schema_version = 1;
    revision = 1;
    digest = 7 ∷ [];
    effective_digest = 7 ∷ [];
    updated_at = 0;
    actor = [];
    desired = 7;
    effective = 7;
    restart_required = [];
  };
  closed = false;
  disk = record empty_disk {
    metadata = some (record {
      schema_version = 1;
      revision = 1;
      digest = 7 ∷ [];
      effective_digest = 7 ∷ [];
      restart_required = [];
      updated_at = 0;
      actor = [];
    });
  };
}

abbrev to_eight : Request ℕ
to_eight = record { expected = 1; desired = some 8; effective = none; actor = []; dry_run = false }

abbrev interrupted_call : Call ℕ
interrupted_call = applies to_eight 5 config_renamed

abbrev finished_call : Call ℕ
finished_call = applies to_eight 5 done

finished_revision : (call numbers finished_call started).snapshot.revision ≡ 2
unfolding call apply preview save
finished_revision = refl

revision_names_snapshot_example :
    (started.snapshot.revision ≤ (run numbers (interrupted_call ∷ []) started).snapshot.revision)
    × ((run numbers (interrupted_call ∷ []) started).snapshot.revision ≡ started.snapshot.revision
        → (run numbers (interrupted_call ∷ []) started).snapshot ≡ started.snapshot)
revision_names_snapshot_example =
    revision_names_snapshot numbers (interrupted_call ∷ []) started (omega arith)

saved_survives_example :
    RestartsWith numbers 2 8
      (load numbers true written 9 (call numbers finished_call started).disk).1
unfolding call apply preview save
saved_survives_example =
    saved_survives numbers finished_call started 9 8 8 (omega arith)
      (λ same. absurd (omega (arith, same, finished_revision))) (refl, refl)
