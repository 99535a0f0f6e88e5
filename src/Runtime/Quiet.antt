-- ===== src/Runtime/Quiet.antt =====
-- internal/runtime/manager.go: steps that leave the current snapshot as it is.
use ya_router.Common.{
  ℕ, ◌+◌, ◌^◌, ◌≤◌, ◌<◌, ◌≡◌, refl, ◌∙◌, arith, Bool, true, false, Option, none, some, List, [],
  ◌∷◌, lookup, nat_key, length, contains, branch, ◌&&◌,
}
use ya_router.Runtime.{
  Snapshot, Lease, Manager, try_acquire, release, retire, close_drained, on_snapshot, take_lease,
  try_lease, release_lease, retire_next, untrack,
}
use ya_router.Runtime.Steps.{
  Step, tries, releases, retires, drains, untracks, publishes, publishes_providers, closes, step,
  run,
}
use ya_router.Runtime.Runs.{generation-step}

abbrev pub is_quiet_step : Step → Bool
is_quiet_step (publishes o providers) = false
is_quiet_step (publishes_providers providers) = false
is_quiet_step closes = false
is_quiet_step _ = true

-- no publication and no `Close`
unfoldable pub is_quiet : List Step → Bool
is_quiet [] = true
is_quiet (x ∷ xs) = is_quiet_step x && is_quiet xs

current-try_lease :
    (g : ℕ) (m : Manager) (o : Option Snapshot) → (try_lease g m o).0.current ≡ m.current
unfolding try_lease try_acquire
current-try_lease g m none = refl
current-try_lease g m (some s) =
    branch (λ z. (take_lease g m z).0.current ≡ m.current) s.retired refl refl

current-on_snapshot :
    (g : ℕ) (f : Snapshot → Snapshot) (m : Manager) (o : Option Snapshot)
    → (on_snapshot g f m o).current ≡ m.current
current-on_snapshot g f m none = refl
current-on_snapshot g f m (some s) = refl

current-release_lease :
    (l : ℕ) (m : Manager) (o : Option Lease) → (release_lease l m o).current ≡ m.current
unfolding release_lease
current-release_lease l m none = refl
current-release_lease l m (some x) =
    branch (λ (z : Manager). z.current ≡ m.current) x.released refl
      (current-on_snapshot x.snapshot release _ (lookup x.snapshot m.heap))

current-untrack : (g : ℕ) (m : Manager) (o : Option Snapshot) → (untrack g m o).current ≡ m.current
unfolding untrack
current-untrack g m none = refl
current-untrack g m (some s) = branch (λ (z : Manager). z.current ≡ m.current) s.drained refl refl

current-step : (x : Step) (m : Manager) → is_quiet_step x ≡ true → (step x m).current ≡ m.current
unfolding step retire_next
current-step (tries g) m h = current-try_lease g m (lookup g m.heap)
current-step (releases l) m h = current-release_lease l m (lookup l m.leases)
current-step (retires g) m h =
    branch (λ (z : Manager). z.current ≡ m.current) (contains g m.retiring)
      (current-on_snapshot g retire _ (lookup g m.heap)) refl
current-step (drains g) m h = current-on_snapshot g close_drained m (lookup g m.heap)
current-step (untracks g) m h = current-untrack g m (lookup g m.heap)
current-step (publishes o providers) m h = absurd (ground (arith, h))
current-step (publishes_providers providers) m h = absurd (ground (arith, h))
current-step closes m h = absurd (ground (arith, h))

pub current-run :
    (xs : List Step) (m : Manager) → is_quiet xs ≡ true → (run xs m).current ≡ m.current
unfolding run is_quiet
current-run [] m h = refl
current-run (x ∷ xs) m h =
    current-run xs (step x m) (ground (arith, h)) ∙ current-step x m (ground (arith, h))

pub generation-run :
    (xs : List Step) (m : Manager)
    → m.generation + length xs < 2 ^ 64
    → (run xs m).generation ≤ m.generation + length xs
unfolding run
generation-run [] m room = omega arith
generation-run (x ∷ xs) m room =
    let one = generation-step x m (omega (arith, room)) in
    omega (arith, one, generation-run xs (step x m) (omega (arith, room, one)))
