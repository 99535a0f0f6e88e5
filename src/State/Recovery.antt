-- ===== src/State/Recovery.antt =====
-- internal/state: the daemon started, used and started again.
use ya_router.Common.{
  ℕ, ◌+◌, ◌<◌, ◌^◌, true, some, ◌⊎◌, inr, ◌≡◌, ◌≢◌, refl, sym, subst, arith, branch_by, ◌=?◌,
  text_key, if◌then◌else◌,
}
use ya_router.State.{
  Options, Disk, Manager, Snapshot, StateError, Reached, nowhere, config_copied, backed_up,
  config_renamed, metadata_renamed, done, save, persist, metadata_of, next_revision, written,
}
use ya_router.State.Mutations.{valid}
use ya_router.State.Load.{load, load_config, load_valid, loaded, with_metadata}
use ya_router.State.Calls.{Call, call}
use ya_router.State.Coherent.{AcceptsOwn, IsNext, call-by}
use ya_router.State.Restart.{Durable}

module _ {Config : Type 0} (o : Options Config) where
  -- what it takes for the result of a start to be durable
  abbrev DurableIf : Disk Config × (StateError ⊎ Manager Config) → Type 0
  DurableIf x = (m : Manager Config) → x.1 ≡ inr m → AcceptsOwn o → Durable o m

  -- The revision of a start that finds the configuration `e` after `s` was saved.
  abbrev pub revision_after : Snapshot Config → Config → ℕ
  revision_after s e = if s.digest =? o.digest e then s.revision else next_revision s.revision

  -- A start that gives a snapshot with the configuration `e` and this revision.
  abbrev pub RestartsWith : ℕ → Config → StateError ⊎ Manager Config → Type 0
  RestartsWith r e x =
      (n : Manager Config) × ((x ≡ inr n) × ((n.snapshot.desired ≡ e) × (n.snapshot.revision ≡ r)))

  -- what a start makes of the saved configuration: first the loader, then the validator
  abbrev pub IsRead : Config → Config → Config → Type 0
  IsRead c d e = (o.loader c ≡ inr d) × (o.validator d ≡ inr e)

  read_valid : (c d e : Config) → IsRead c d e → valid o (load_config o (some c) o.initial) ≡ inr e
  read_valid c d e read = ground (arith, read.0, read.1)

  stored-RestartsWith :
      (s : Snapshot Config) (later : ℕ) (f : Disk Config) (d e : Config)
      → IsRead s.desired d e
      → 0 < s.revision
      → 0 < next_revision s.revision
      → f.config ≡ some s.desired
      → f.metadata ≡ some (metadata_of o s)
      → RestartsWith (revision_after s e) e (load o true written later f).1
  unfolding load loaded
  stored-RestartsWith s later f d e read room more config metadata =
      subst
        (λ g.
          RestartsWith (revision_after s e) e
            (load_valid o true written later f (valid o (load_config o g o.initial))).1)
        (sym config)
        (subst (λ x. RestartsWith (revision_after s e) e (load_valid o true written later f x).1)
          (sym (read_valid s.desired d e read))
          (subst
            (λ k.
              RestartsWith (revision_after s e) e
                (with_metadata o written later e (o.digest e) f k).1)
            (sym metadata)
            (branch_by
              (λ (z : Disk Config × (StateError ⊎ Manager Config)).
                RestartsWith (revision_after s e) e z.1)
              (s.digest =? o.digest e) (λ same. (_, (refl, (refl, ground (arith, room, same)))))
              (λ other. (_, (refl, (refl, ground (arith, more, other))))))))

  save-RestartsWith :
      (reached : Reached) (next : Snapshot Config) (m : Manager Config) (later : ℕ) (d e : Config)
      → m.snapshot.revision + 2 < 2 ^ 64
      → IsNext o m next
      → (save o reached next m).0.snapshot.revision ≢ m.snapshot.revision
      → IsRead (save o reached next m).0.snapshot.desired d e
      → RestartsWith
          (revision_after (save o reached next m).0.snapshot e)
          e
          (load o true written later (save o reached next m).0.disk).1
  unfolding save persist
  save-RestartsWith done next m later d e room u moved read =
      stored-RestartsWith next later _ d e read (omega (arith, u.revision, room))
        (omega (arith, u.revision, room)) refl refl
  save-RestartsWith nowhere next m later d e room u moved read = absurd (moved refl)
  save-RestartsWith config_copied next m later d e room u moved read = absurd (moved refl)
  save-RestartsWith backed_up next m later d e room u moved read = absurd (moved refl)
  save-RestartsWith config_renamed next m later d e room u moved read = absurd (moved refl)
  save-RestartsWith metadata_renamed next m later d e room u moved read = absurd (moved refl)

  -- What a call has saved is what a restart finds: if a call moves the revision, then a start on the
  -- files that it leaves, whose metadata can be read and written, gives the configuration that the
  -- loader and then the validator make of the one that the manager has, with the revision that the
  -- manager has if the digest saved is the one of that configuration, and with the next revision
  -- otherwise. The conditions: the loader and the validator accept the saved configuration, and the
  -- 64-bit revisions do not run out.
  pub saved_survives :
      (x : Call Config) (m : Manager Config) (later : ℕ) (d e : Config)
      → m.snapshot.revision + 2 < 2 ^ 64
      → (call o x m).snapshot.revision ≢ m.snapshot.revision
      → IsRead (call o x m).snapshot.desired d e
      → RestartsWith
          (revision_after (call o x m).snapshot e)
          e
          (load o true written later (call o x m).disk).1
  saved_survives x m later d e room =
      call-by o
        (λ n.
          n.snapshot.revision ≢ m.snapshot.revision
          → IsRead n.snapshot.desired d e
          → RestartsWith (revision_after n.snapshot e) e (load o true written later n.disk).1)
        x m (λ moved. absurd (moved refl)) (λ moved. absurd (moved refl))
        (λ reached next u. save-RestartsWith reached next m later d e room u)
