-- ===== src/State.antt =====
-- internal/state: the daemon's configuration with its revisions (manager.go), and the files that
-- hold it (persistence.go). The type of configurations, its digest, the paths in which two differ,
-- the validator and the loader of the options are arguments. A file is its decoded content.
pub mod Mutations
pub mod Load
pub mod Calls
pub mod Coherent
pub mod Revisions
pub mod Restart
pub mod Recovery
use ya_router.Common.{
  ℕ, ◌+◌, ◌%◌, ◌^◌, Text, codes, Bool, true, false, Option, none, some, List, [], ◌⊎◌, inl, inr,
  ◌=?◌, text_key, ◌==◌, is_empty, trim_space, not, ◌&&◌, if◌then◌else◌,
}

pub record Metadata : Type 0 where
  pub schema_version : ℕ
  pub revision : ℕ
  pub digest : Text
  pub effective_digest : Text
  pub restart_required : List Text
  pub updated_at : ℕ
  pub actor : Text

pub data StateError : Type 0 where
  closed desired_required effective_required no_configuration no_backup interrupted : StateError
  unreadable_metadata : StateError
  conflict : ℕ → ℕ → StateError
  rejected : Text → StateError

abbrev pub metadata_schema_version : ℕ
metadata_schema_version = 1

-- How far `persist` came before an error, a fault or a crash: `nowhere` is before the backup,
-- `done` the only end without an error.
pub data Reached : Type 0 where
  nowhere config_copied backed_up config_renamed metadata_renamed done : Reached

-- Whether the metadata that `load` writes reaches the disk, and whether the call succeeds.
pub data Written : Type 0 where
  written not_written written_unsynced : Written

abbrev pub next_revision : ℕ → ℕ
next_revision r = (r + 1) % 2 ^ 64

abbrev pub actor_or : Text → Text → Text
actor_or actor preset = if is_empty (trim_space actor) then preset else actor

pub record Snapshot (Config : Type 0) : Type 0 where
  pub schema_version : ℕ
  pub revision : ℕ
  pub digest : Text
  pub effective_digest : Text
  pub updated_at : ℕ
  pub actor : Text
  pub desired : Config
  pub effective : Config
  pub restart_required : List Text

-- The validator may change the configuration that it is given, as that of the daemon does, which
-- fills in defaults: it returns what it leaves, or an error; one that is nil changes and rejects
-- nothing. The loader gets what the file holds; without one it is the decoding of it. `digest` and
-- `diff_paths` stand for `configDigest` and `diffPaths`.
pub record Options (Config : Type 0) : Type 0 where
  pub initial : Option Config
  pub loader : Config → Text ⊎ Config
  pub validator : Config → Text ⊎ Config
  pub actor : Text
  pub digest : Config → Text
  pub diff_paths : Config → Config → List Text

-- The four files.
pub record Disk (Config : Type 0) : Type 0 where
  pub config : Option Config
  pub metadata : Option Metadata
  pub backup : Option Config
  pub metadata_backup : Option Metadata

pub record Manager (Config : Type 0) : Type 0 where
  pub snapshot : Snapshot Config
  pub closed : Bool
  pub disk : Disk Config

pub record Preview : Type 0 where
  pub current_revision : ℕ
  pub next_revision : ℕ
  pub digest : Text
  pub changed : Bool
  pub changed_paths : List Text
  pub restart_required : List Text

-- the arguments of `Apply`, and of the others as far as they have them
pub record Request (Config : Type 0) : Type 0 where
  pub expected : ℕ
  pub desired : Option Config
  pub effective : Option Config
  pub actor : Text
  pub dry_run : Bool

module _ {Config : Type 0} (o : Options Config) where
  abbrev pub or_kept : Option Config → Option Config → Option Config
  or_kept none old = old
  or_kept (some c) old = some c

  abbrev pub metadata_of : Snapshot Config → Metadata
  metadata_of s = record {
    schema_version = s.schema_version;
    revision = s.revision;
    digest = s.digest;
    effective_digest = s.effective_digest;
    restart_required = s.restart_required;
    updated_at = s.updated_at;
    actor = s.actor;
  }

  abbrev pub kept_metadata : Option Metadata → Option Metadata → Option Metadata
  kept_metadata none old = old
  kept_metadata (some c) old = some c

  abbrev pub copy_config : Disk Config → Disk Config
  copy_config d = record d { backup = or_kept d.config d.backup }

  -- `backupCurrent`, which leaves a backup where there is no file
  abbrev pub backup_current : Disk Config → Disk Config
  backup_current d = record (copy_config d) {
    metadata_backup = kept_metadata d.metadata d.metadata_backup;
  }

  abbrev pub rename_config : Config → Disk Config → Disk Config
  rename_config c d = record d { config = some c }

  abbrev pub rename_metadata : Metadata → Disk Config → Disk Config
  rename_metadata m d = record d { metadata = some m }

  unfoldable pub persist : Reached → Snapshot Config → Disk Config → Disk Config
  persist nowhere next d = d
  persist config_copied next d = copy_config d
  persist backed_up next d = backup_current d
  persist config_renamed next d = rename_config next.desired (backup_current d)
  persist metadata_renamed next d =
      rename_metadata (metadata_of next) (rename_config next.desired (backup_current d))
  persist done next d =
      rename_metadata (metadata_of next) (rename_config next.desired (backup_current d))

  -- the end of each mutation: `persist`, and on success the new snapshot
  unfoldable pub save :
      Reached → Snapshot Config → Manager Config → Manager Config × (StateError ⊎ Snapshot Config)
  unfolding persist
  save done next m = (record m { snapshot = next; disk = persist done next m.disk }, inr next)
  save r next m = (record m { disk = persist r next m.disk }, inl interrupted)
