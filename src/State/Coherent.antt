-- ===== src/State/Coherent.antt =====
-- internal/state: what every snapshot satisfies, and how a call may change the manager.
use ya_router.Common.{
  ℕ, Text, Option, none, some, ◌⊎◌, inl, inr, ◌≡◌, refl, arith, branch, not, ◌&&◌, ◌==◌,
}
use ya_router.State.{
  Options, Manager, Request, Preview, Snapshot, StateError, Reached, save, next_revision,
}
use ya_router.State.Mutations.{
  preview, preview_valid, checked, apply_previewed, apply, load_file, valid, rollback_to, rollback,
  set_effective_to, required, set_effective, close, has_effective,
}
use ya_router.State.Calls.{Call, applies, rolls_back, sets_effective, closes, call}

module _ {Config : Type 0} (o : Options Config) where
  abbrev pub IsAccepted : Config → Type 0
  IsAccepted c = (d : Config) × (o.validator c ≡ inr d)

  -- The validator accepts what it has left of a configuration.
  abbrev pub AcceptsOwn : Type 0
  AcceptsOwn = (c d : Config) → o.validator c ≡ inr d → IsAccepted d

  -- What a mutation may save.
  pub record IsNext (m : Manager Config) (next : Snapshot Config) : Type 0 where
    pub revision : next.revision ≡ next_revision m.snapshot.revision
    pub accepted : AcceptsOwn → IsAccepted m.snapshot.desired → IsAccepted next.desired

  abbrev First :
      (Manager Config → Type 0) → Manager Config × (StateError ⊎ Snapshot Config) → Type 0
  First P z = P z.0

  previewed :
      (m : Manager Config) (desired : Config) (effective : Option Config) (e : Text ⊎ Config)
      (p : Preview)
      → o.validator desired ≡ e
      → preview_valid o m effective e ≡ inr p
      → IsAccepted desired
  previewed m desired effective (inl e) p h g = absurd (ground (arith, g))
  previewed m desired effective (inr d) p h g = (d, h)

  module _ (P : Manager Config → Type 0) (m : Manager Config) (kept : P m)
      (saved : (reached : Reached) (next : Snapshot Config)
        → IsNext m next
        → P (save o reached next m).0) where
    by_previewed :
        (r : Request Config) (now : ℕ) (reached : Reached) (desired : Option Config)
        (x : StateError ⊎ Preview)
        → preview o m desired r.effective ≡ x
        → P (apply_previewed o r now reached m desired x).0
    unfolding preview
    by_previewed r now reached desired (inl e) h = kept
    by_previewed r now reached none (inr p) h = kept
    by_previewed r now reached (some desired) (inr p) h =
        let accepted = previewed m desired r.effective (o.validator desired) p refl h in
        branch (First P) r.dry_run kept (
          branch (First P) (not p.changed && not (has_effective o r.effective)) kept
            (saved reached _ (record { revision = refl; accepted = λ own old. accepted })))

    pub by_apply :
        (r : Request Config) (now : ℕ) (reached : Reached) → P (apply o r now reached m).0
    unfolding apply
    by_apply r now reached = branch (First P) m.closed kept (
        branch (First P) (not (r.expected == m.snapshot.revision)) kept
          (by_previewed r now reached r.desired _ refl))

    by_rollback_to :
        (actor : Text) (now : ℕ) (reached : Reached) (x : StateError ⊎ Config)
        → ((c : Config) → x ≡ inr c → AcceptsOwn → IsAccepted c)
        → P (rollback_to o actor now reached m x).0
    by_rollback_to actor now reached (inl e) h = kept
    by_rollback_to actor now reached (inr c) h =
        saved reached _ (record { revision = refl; accepted = λ own old. h c refl own })

    by_set_effective_to :
        (actor : Text) (now : ℕ) (reached : Reached) (x : StateError ⊎ Config)
        → P (set_effective_to o actor now reached m x).0
    by_set_effective_to actor now reached (inl e) = kept
    by_set_effective_to actor now reached (inr c) =
        saved reached _ (record { revision = refl; accepted = λ own old. old })

  checked_accepted :
      (d : Config) (z : Text ⊎ Config) (c : Config)
      → o.validator d ≡ z
      → checked o z (λ e. e) ≡ inr c
      → AcceptsOwn
      → IsAccepted c
  checked_accepted d (inl e) c g h own = absurd (ground (arith, h))
  checked_accepted d (inr e) c g h own = own d c (ground (arith, g, h))

  pub valid_accepted :
      (x : StateError ⊎ Config) (c : Config) → valid o x ≡ inr c → AcceptsOwn → IsAccepted c
  valid_accepted (inl e) c h own = absurd (ground (arith, h))
  valid_accepted (inr d) c h own = checked_accepted d (o.validator d) c refl h own

  -- Every call leaves the manager as it is, closes it, or saves a snapshot with the next revision.
  pub call-by :
      (P : Manager Config → Type 0) (x : Call Config) (m : Manager Config)
      → P m
      → P (close m)
      → ((reached : Reached) (next : Snapshot Config) → IsNext m next → P (save o reached next m).0)
      → P (call o x m)
  unfolding call rollback set_effective
  call-by P (applies r now reached) m kept shut saved = by_apply P m kept saved r now reached
  call-by P (rolls_back expected actor now reached) m kept shut saved =
      branch (First P) m.closed kept (
        branch (First P) (not (expected == m.snapshot.revision)) kept (
          by_rollback_to P m kept saved actor now reached _
            (valid_accepted (load_file o m.disk.backup))))
  call-by P (sets_effective expected effective actor now reached) m kept shut saved =
      branch (First P) (not (expected == m.snapshot.revision)) kept
        (by_set_effective_to P m kept saved actor now reached (required o effective))
  call-by P closes m kept shut saved = shut
