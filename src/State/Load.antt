-- ===== src/State/Load.antt =====
-- internal/state: what a start of the daemon makes of the files, `load`.
use ya_router.Common.{
  ℕ, Text, codes, Bool, false, Option, none, some, [], ◌⊎◌, inl, inr, ◌=?◌, text_key, ◌==◌,
  if◌then◌else◌,
}
use ya_router.State.{
  Metadata, Options, Disk, Manager, StateError, Written, written, not_written, no_configuration,
  written_unsynced, interrupted, unreadable_metadata, metadata_schema_version, next_revision,
  rename_metadata,
}
use ya_router.State.Mutations.{load_file, valid}

module _ {Config : Type 0} (o : Options Config) where
  -- `loadConfig`: the initial configuration stands in for a missing file, and is not read from one
  abbrev pub load_config : Option Config → Option Config → StateError ⊎ Config
  load_config none none = inl no_configuration
  load_config none (some c) = inr c
  load_config (some c) initial = load_file o (some c)

  abbrev pub initial_metadata : Text → ℕ → Metadata
  initial_metadata digest now = record {
    schema_version = metadata_schema_version;
    revision = 1;
    digest = digest;
    effective_digest = digest;
    restart_required = [];
    updated_at = now;
    actor = o.actor;
  }

  abbrev pub repaired : Text → ℕ → Metadata → Metadata
  repaired digest now m = record m {
    revision = next_revision m.revision;
    digest = digest;
    effective_digest = digest;
    restart_required = [];
    updated_at = now;
    actor = codes "recovery";
  }

  -- the manager of `load` from the metadata it ends with
  unfoldable pub loaded : Config → Text → Metadata → Disk Config → Manager Config
  loaded config digest m d = record {
    snapshot = record {
      schema_version = if m.schema_version == 0 then metadata_schema_version else m.schema_version;
      revision = if m.revision == 0 then 1 else m.revision;
      digest = digest;
      effective_digest = digest;
      updated_at = m.updated_at;
      actor = m.actor;
      desired = config;
      effective = config;
      restart_required = m.restart_required;
    };
    closed = false;
    disk = d;
  }

  abbrev pub write_metadata :
      Written → Metadata → Config → Text → Disk Config → Disk Config × (StateError ⊎ Manager Config)
  write_metadata written m config digest d =
      (rename_metadata o m d, inr (loaded config digest m (rename_metadata o m d)))
  write_metadata not_written m config digest d = (d, inl interrupted)
  write_metadata written_unsynced m config digest d = (rename_metadata o m d, inl interrupted)

  abbrev pub with_metadata :
      Written
      → ℕ
      → Config
      → Text
      → Disk Config
      → Option Metadata
      → Disk Config × (StateError ⊎ Manager Config)
  with_metadata w now config digest d none =
      write_metadata w (initial_metadata digest now) config digest d
  with_metadata w now config digest d (some m) =
      if m.digest =? digest
      then (d, inr (loaded config digest m d))
      else write_metadata w (repaired digest now m) config digest d

  abbrev pub load_valid :
      Bool
      → Written
      → ℕ
      → Disk Config
      → StateError ⊎ Config
      → Disk Config × (StateError ⊎ Manager Config)
  load_valid readable w now d (inl e) = (d, inl e)
  load_valid readable w now d (inr config) =
      if readable
      then with_metadata w now config (o.digest config) d d.metadata
      else (d, inl unreadable_metadata)

  -- `load`, where `readable` says whether the metadata can be read
  unfoldable pub load :
      Bool → Written → ℕ → Disk Config → Disk Config × (StateError ⊎ Manager Config)
  unfolding loaded
  load readable w now d = load_valid readable w now d (valid o (load_config d.config o.initial))
