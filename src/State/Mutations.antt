-- ===== src/State/Mutations.antt =====
-- internal/state/manager.go: the preview, Apply, Rollback, SetEffective and Close.
use ya_router.Common.{
  ℕ, Text, Bool, true, false, Option, none, some, ◌⊎◌, inl, inr, ◌=?◌, text_key, ◌==◌, not, ◌&&◌,
  if◌then◌else◌,
}
use ya_router.State.{
  Options, Manager, Snapshot, Request, Preview, Reached, StateError, save, next_revision, actor_or,
  metadata_schema_version, closed, desired_required, effective_required, no_backup, conflict,
  rejected,
}

module _ {Config : Type 0} (o : Options Config) where
  -- `previewLockedWithoutLock` on the configurations that the validator has left
  abbrev pub preview_of : Manager Config → Config → Config → Preview
  preview_of m desired effective = record {
    current_revision = m.snapshot.revision;
    next_revision = next_revision m.snapshot.revision;
    digest = o.digest desired;
    changed = not (o.digest desired =? m.snapshot.digest);
    changed_paths = o.diff_paths m.snapshot.desired desired;
    restart_required = o.diff_paths effective desired;
  }

  abbrev pub checked : {A : Type 0} → Text ⊎ Config → (Config → A) → StateError ⊎ A
  checked (inl e) f = inl (rejected e)
  checked (inr c) f = inr (f c)

  -- given what the validator leaves of the copy of the desired configuration
  abbrev pub preview_valid : Manager Config → Option Config → Text ⊎ Config → StateError ⊎ Preview
  preview_valid m effective (inl e) = inl (rejected e)
  preview_valid m none (inr d) = inr (preview_of m d m.snapshot.effective)
  preview_valid m (some c) (inr d) = checked (o.validator c) (preview_of m d)

  unfoldable pub preview : Manager Config → Option Config → Option Config → StateError ⊎ Preview
  preview m none effective = inl desired_required
  preview m (some desired) effective = preview_valid m effective (o.validator desired)

  abbrev pub effective_or : Option Config → Manager Config → Config
  effective_or none m = m.snapshot.effective
  effective_or (some c) m = c

  abbrev pub has_effective : Option Config → Bool
  has_effective none = false
  has_effective (some c) = true

  -- what a dry run returns
  abbrev pub candidate : Request Config → Config → Preview → Manager Config → Snapshot Config
  candidate r desired p m = record m.snapshot {
    revision = p.next_revision;
    digest = p.digest;
    desired = desired;
    effective = effective_or r.effective m;
    restart_required = p.restart_required;
  }

  -- It keeps the configurations that it was given, with the digest of what the validator left.
  abbrev pub applied : Request Config → Config → ℕ → Preview → Manager Config → Snapshot Config
  applied r desired now p m = record {
    schema_version = metadata_schema_version;
    revision = next_revision m.snapshot.revision;
    digest = p.digest;
    effective_digest = o.digest (effective_or r.effective m);
    updated_at = now;
    actor = actor_or r.actor o.actor;
    desired = desired;
    effective = effective_or r.effective m;
    restart_required = p.restart_required;
  }

  -- `Apply` after the preview
  abbrev pub apply_previewed :
      Request Config
      → ℕ
      → Reached
      → Manager Config
      → Option Config
      → StateError ⊎ Preview
      → Manager Config × (StateError ⊎ Snapshot Config)
  apply_previewed r now reached m desired (inl e) = (m, inl e)
  apply_previewed r now reached m none (inr p) = (m, inl desired_required)
  apply_previewed r now reached m (some desired) (inr p) =
      if r.dry_run
      then (m, inr (candidate r desired p m))
      else if not p.changed && not (has_effective r.effective)
      then (m, inr m.snapshot)
      else save o reached (applied r desired now p m) m

  unfoldable pub apply :
      Request Config
      → ℕ
      → Reached
      → Manager Config
      → Manager Config × (StateError ⊎ Snapshot Config)
  unfolding preview save
  apply r now reached m =
      if m.closed
      then (m, inl closed)
      else if not (r.expected == m.snapshot.revision)
      then (m, inl (conflict r.expected m.snapshot.revision))
      else apply_previewed r now reached m r.desired (preview m r.desired r.effective)

  abbrev pub rolled_back : Text → ℕ → Config → Manager Config → Snapshot Config
  rolled_back actor now backup m = record {
    schema_version = metadata_schema_version;
    revision = next_revision m.snapshot.revision;
    digest = o.digest backup;
    effective_digest = m.snapshot.effective_digest;
    updated_at = now;
    actor = actor_or actor o.actor;
    desired = backup;
    effective = m.snapshot.effective;
    restart_required = o.diff_paths m.snapshot.effective backup;
  }

  abbrev pub load_file : Option Config → StateError ⊎ Config
  load_file none = inl no_backup
  load_file (some c) = elim (o.loader c) [ inl e ↦ inl (rejected e) | inr d ↦ inr d ]

  -- the validator works on the configuration itself
  abbrev pub valid : StateError ⊎ Config → StateError ⊎ Config
  valid (inl e) = inl e
  valid (inr c) = checked (o.validator c) (λ d. d)

  abbrev pub rollback_to :
      Text
      → ℕ
      → Reached
      → Manager Config
      → StateError ⊎ Config
      → Manager Config × (StateError ⊎ Snapshot Config)
  rollback_to actor now reached m (inl e) = (m, inl e)
  rollback_to actor now reached m (inr backup) = save o reached (rolled_back actor now backup m) m

  unfoldable pub rollback :
      ℕ → Text → ℕ → Reached → Manager Config → Manager Config × (StateError ⊎ Snapshot Config)
  unfolding save
  rollback expected actor now reached m =
      if m.closed
      then (m, inl closed)
      else if not (expected == m.snapshot.revision)
      then (m, inl (conflict expected m.snapshot.revision))
      else rollback_to actor now reached m (valid (load_file m.disk.backup))

  abbrev pub with_effective : Text → ℕ → Config → Manager Config → Snapshot Config
  with_effective actor now effective m = record m.snapshot {
    revision = next_revision m.snapshot.revision;
    effective = effective;
    effective_digest = o.digest effective;
    restart_required = o.diff_paths effective m.snapshot.desired;
    updated_at = now;
    actor = actor_or actor o.actor;
  }

  abbrev pub set_effective_to :
      Text
      → ℕ
      → Reached
      → Manager Config
      → StateError ⊎ Config
      → Manager Config × (StateError ⊎ Snapshot Config)
  set_effective_to actor now reached m (inl e) = (m, inl e)
  set_effective_to actor now reached m (inr c) = save o reached (with_effective actor now c m) m

  abbrev pub required : Option Config → StateError ⊎ Config
  required none = inl effective_required
  required (some c) = checked (o.validator c) (λ d. d)

  -- `SetEffective`, which does not ask whether the manager is closed
  unfoldable pub set_effective :
      ℕ
      → Option Config
      → Text
      → ℕ
      → Reached
      → Manager Config
      → Manager Config × (StateError ⊎ Snapshot Config)
  unfolding save
  set_effective expected effective actor now reached m =
      if not (expected == m.snapshot.revision)
      then (m, inl (conflict expected m.snapshot.revision))
      else set_effective_to actor now reached m (required effective)

abbrev pub close : {Config : Type 0} → Manager Config → Manager Config
close m = record m { closed = true }
