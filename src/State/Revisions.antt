-- ===== src/State/Revisions.antt =====
-- internal/state: revisions over any sequence of calls.
use ya_router.Common.{
  ℕ, ◌+◌, ◌<◌, ◌≤◌, ◌^◌, List, [], ◌∷◌, ◌≡◌, refl, sym, ap, ◌∙◌, subst, arith, length, text_key,
}
use ya_router.State.{
  Options, Manager, Snapshot, Reached, nowhere, config_copied, backed_up, config_renamed,
  metadata_renamed, done, save,
}
use ya_router.State.Calls.{Call, call, run}
use ya_router.State.Coherent.{IsNext, call-by}

module _ {Config : Type 0} (o : Options Config) where
  -- The manager `n` comes after `m`, at most `k` mutations later.
  pub record IsLater (k : ℕ) (m n : Manager Config) : Type 0 where
    pub reached : n.snapshot.revision ≤ m.snapshot.revision + k
    pub never_back : m.snapshot.revision ≤ n.snapshot.revision
    pub same : n.snapshot.revision ≡ m.snapshot.revision → n.snapshot ≡ m.snapshot

  grown :
      (k : ℕ) (m n p : Manager Config)
      → p.snapshot ≡ n.snapshot
      → IsLater k m n
      → IsLater (k + 1) m p
  grown k m n p e v = record {
    reached = omega (arith, v.reached, ap (λ s. s.revision) e);
    never_back = omega (arith, v.never_back, ap (λ s. s.revision) e);
    same = λ h. e ∙ v.same (sym (ap (λ s. s.revision) e) ∙ h);
  }

  save-IsLater :
      (k : ℕ) (reached : Reached) (next : Snapshot Config) (m n : Manager Config)
      → m.snapshot.revision + k + 1 < 2 ^ 64
      → IsLater k m n
      → IsNext o n next
      → IsLater (k + 1) m (save o reached next n).0
  unfolding save
  save-IsLater k done next m n room v u = record {
    reached = omega (arith, u.revision, room, v.reached);
    never_back = omega (arith, u.revision, room, v.reached, v.never_back);
    same = λ e. absurd (omega (arith, u.revision, room, v.reached, v.never_back, e));
  }
  save-IsLater k nowhere next m n room v u = grown k m n _ refl v
  save-IsLater k config_copied next m n room v u = grown k m n _ refl v
  save-IsLater k backed_up next m n room v u = grown k m n _ refl v
  save-IsLater k config_renamed next m n room v u = grown k m n _ refl v
  save-IsLater k metadata_renamed next m n room v u = grown k m n _ refl v

  call-IsLater :
      (k : ℕ) (x : Call Config) (m n : Manager Config)
      → m.snapshot.revision + k + 1 < 2 ^ 64
      → IsLater k m n
      → IsLater (k + 1) m (call o x n)
  call-IsLater k x m n room v =
      call-by o (IsLater (k + 1) m) x n (grown k m n n refl v) (grown k m n _ refl v)
        (λ reached next u. save-IsLater k reached next m n room v u)

  run-IsLater :
      (xs : List (Call Config)) (k : ℕ) (m n : Manager Config)
      → m.snapshot.revision + k + length xs < 2 ^ 64
      → IsLater k m n
      → IsLater (k + length xs) m (run o xs n)
  unfolding run
  run-IsLater [] k m n room v = subst (λ j. IsLater j m n) (omega arith) v
  run-IsLater (x ∷ xs) k m n room v =
      subst (λ j. IsLater j m (run o xs (call o x n))) (omega arith)
        (run-IsLater xs (k + 1) m (call o x n) (omega (arith, room))
          (call-IsLater k x m n (omega (arith, room)) v))

  now-IsLater : (m : Manager Config) → IsLater 0 m m
  now-IsLater m = record { reached = omega arith; never_back = omega arith; same = λ e. refl }

  pub revision-call :
      (x : Call Config) (m : Manager Config)
      → m.snapshot.revision + 1 < 2 ^ 64
      → (call o x m).snapshot.revision ≤ m.snapshot.revision + 1
  revision-call x m room = (call-IsLater 0 x m m (omega (arith, room)) (now-IsLater m)).reached

  -- A revision names one snapshot, which is what a client relies on that sends the revision it has
  -- read: over any sequence of calls the revision never decreases, and if it is the same at the end
  -- then so is the whole snapshot. The condition is that the 64-bit revisions do not run out:
  -- the first one plus the number of calls is below 2 ^ 64.
  pub revision_names_snapshot :
      (xs : List (Call Config)) (m : Manager Config)
      → m.snapshot.revision + length xs < 2 ^ 64
      → (m.snapshot.revision ≤ (run o xs m).snapshot.revision)
        × ((run o xs m).snapshot.revision ≡ m.snapshot.revision
            → (run o xs m).snapshot ≡ m.snapshot)
  revision_names_snapshot xs m room =
      let later = run-IsLater xs 0 m m (omega (arith, room)) (now-IsLater m) in
      (later.never_back, later.same)
