-- ===== src/Runtime/Runs.antt =====
-- internal/runtime: what holds at any time in any run of a manager.
use ya_router.Common.{
  ℕ, ◌+◌, ◌^◌, ◌≤◌, ◌<◌, ◌≡◌, refl, arith, Bool, true, false, Option, none, some, List, [], ◌∷◌,
  lookup, nat_key, ◌==◌, length, contains, branch, ◌&&◌, ◌||◌,
}
use ya_router.Config.{RoutingConfig}
use ya_router.Provider.{Provider}
use ya_router.Runtime.{
  Snapshot, Lease, Manager, RuntimeError, validate_providers, new_snapshot, try_acquire, release,
  retire, close_drained, on_snapshot, take_lease, try_lease, release_lease, swap_in,
  publish_checked, publish, publish_providers, current_of, retire_next, close, untrack,
}
use ya_router.Runtime.Count.{held, weight-le-held}
use ya_router.Runtime.Steps.{
  Step, tries, releases, retires, drains, untracks, publishes, publishes_providers, closes, step,
  run,
}
use ya_router.Runtime.Sound.{is_there, IsSound}
use ya_router.Runtime.Safety.{step-IsSound}

pub generation-try_lease :
    (g : ℕ) (m : Manager) (o : Option Snapshot) → (try_lease g m o).0.generation ≡ m.generation
unfolding try_lease try_acquire
generation-try_lease g m none = refl
generation-try_lease g m (some s) =
    branch (λ z. (take_lease g m z).0.generation ≡ m.generation) s.retired refl refl

generation-on_snapshot :
    (g : ℕ) (f : Snapshot → Snapshot) (m : Manager) (o : Option Snapshot)
    → (on_snapshot g f m o).generation ≡ m.generation
generation-on_snapshot g f m none = refl
generation-on_snapshot g f m (some s) = refl

generation-release_lease :
    (l : ℕ) (m : Manager) (o : Option Lease) → (release_lease l m o).generation ≡ m.generation
unfolding release_lease
generation-release_lease l m none = refl
generation-release_lease l m (some x) =
    branch (λ (z : Manager). z.generation ≡ m.generation) x.released refl
      (generation-on_snapshot x.snapshot release _ (lookup x.snapshot m.heap))

generation-retire_next : (g : ℕ) (m : Manager) → (retire_next g m).generation ≡ m.generation
unfolding retire_next
generation-retire_next g m =
    branch (λ (z : Manager). z.generation ≡ m.generation) (contains g m.retiring)
      (generation-on_snapshot g retire _ (lookup g m.heap)) refl

generation-untrack :
    (g : ℕ) (m : Manager) (o : Option Snapshot) → (untrack g m o).generation ≡ m.generation
unfolding untrack
generation-untrack g m none = refl
generation-untrack g m (some s) =
    branch (λ (z : Manager). z.generation ≡ m.generation) s.drained refl refl

generation-close : (m : Manager) → (close m).generation ≤ m.generation + 1
unfolding close
generation-close m = ground arith

generation-checked :
    (routing : RoutingConfig) (providers : List (Option Provider)) (m : Manager)
    (e : Option RuntimeError)
    → m.generation + 1 < 2 ^ 64
    → (publish_checked routing providers m e).0.generation ≤ m.generation + 1
unfolding swap_in
generation-checked routing providers m none room = omega (arith, room)
generation-checked routing providers m (some e) room = omega arith

generation-publish :
    (o : Option RoutingConfig) (providers : List (Option Provider)) (m : Manager)
    → m.generation + 1 < 2 ^ 64
    → (publish o providers m).0.generation ≤ m.generation + 1
unfolding publish
generation-publish none providers m room = ground arith
generation-publish (some routing) providers m room =
    branch (λ (z : Manager × Option RuntimeError). z.0.generation ≤ m.generation + 1) m.closed
      (omega arith) (generation-checked routing providers m (validate_providers [] providers) room)

generation-publish_providers :
    (providers : List (Option Provider)) (m : Manager) (o : Option Snapshot)
    → m.generation + 1 < 2 ^ 64
    → (publish_providers providers m o).0.generation ≤ m.generation + 1
unfolding publish_providers
generation-publish_providers providers m none room = omega arith
generation-publish_providers providers m (some s) room =
    generation-publish (some s.routing) providers m room

-- Only a publication moves the generation, and by one.
pub generation-step :
    (x : Step) (m : Manager) → m.generation + 1 < 2 ^ 64 → (step x m).generation ≤ m.generation + 1
unfolding step
generation-step (tries g) m room = ground (arith, generation-try_lease g m (lookup g m.heap))
generation-step (releases l) m room =
    ground (arith, generation-release_lease l m (lookup l m.leases))
generation-step (retires g) m room = ground (arith, generation-retire_next g m)
generation-step (drains g) m room =
    ground (arith, generation-on_snapshot g close_drained m (lookup g m.heap))
generation-step (untracks g) m room = ground (arith, generation-untrack g m (lookup g m.heap))
generation-step (publishes o providers) m room = generation-publish o providers m room
generation-step (publishes_providers providers) m room =
    generation-publish_providers providers m (current_of m m.current) room
generation-step closes m room = generation-close m

pub run-IsSound :
    (xs : List Step) (m : Manager)
    → m.generation + length xs < 2 ^ 64
    → IsSound m
    → IsSound (run xs m)
unfolding run
run-IsSound [] m room v = v
run-IsSound (x ∷ xs) m room v =
    run-IsSound xs (step x m) (omega (arith, room, generation-step x m (omega (arith, room))))
      (step-IsSound x m (omega (arith, room)) v)

-- The manager that `NewManager` makes.
abbrev pub initial : RoutingConfig → List (Option Provider) → Manager
initial routing providers = record {
  current = some 1;
  closed = false;
  generation = 1;
  heap = (1, new_snapshot 1 routing providers) ∷ [];
  live = 1 ∷ [];
  retiring = [];
  leases = [];
  next_lease = 0;
}

pub initial-IsSound :
    (routing : RoutingConfig) (providers : List (Option Provider))
    → IsSound (initial routing providers)
unfolding new_snapshot lookup
initial-IsSound routing providers = record {
  counted = λ g s e. record { held = ground (arith, e); drained = ground (arith, e) };
  published = λ g e. ground (arith, e);
  leased = λ l x e. absurd (ground (arith, e));
  numbered = λ l x e. absurd (ground (arith, e));
  usable = λ g e. ground (arith, e);
  kept = λ g e. refl;
  retired = λ g e. absurd (ground (arith, e));
  lived = λ g e. ground (arith, e);
  unheld = λ g e. refl;
}

abbrev pub drained_of : Option Snapshot → Option Bool
drained_of none = none
drained_of (some s) = some s.drained

held_open :
    (g : ℕ) (m : Manager) (o : Option Snapshot)
    → lookup g m.heap ≡ o
    → is_there o ≡ true
    → 1 ≤ held g m.leases
    → IsSound m
    → drained_of o ≡ some false
held_open g m none found there h v = absurd (ground (arith, there))
held_open g m (some s) found there h v =
    ground (arith, h, (v.counted g s found).held, (v.counted g s found).drained)

-- A lease holds its snapshot: at any time in any run of a new manager, the snapshot of a lease that
-- was not released is not drained; as long as the 64-bit generations do not run out.
pub leased_not_drained :
    (routing : RoutingConfig) (providers : List (Option Provider)) (xs : List Step) (l : ℕ)
    (x : Lease)
    → 1 + length xs < 2 ^ 64
    → lookup l (run xs (initial routing providers)).leases ≡ some x
    → x.released ≡ false
    → drained_of (lookup x.snapshot (run xs (initial routing providers)).heap) ≡ some false
leased_not_drained routing providers xs l x room lease unreleased =
    let m = run xs (initial routing providers) in
    let v = run-IsSound xs (initial routing providers) room (initial-IsSound routing providers) in
    held_open x.snapshot m (lookup x.snapshot m.heap) refl (v.leased l x lease)
      (ground (arith, lease, unreleased, weight-le-held x.snapshot l m.leases)) v

-- Only its leases hold a retired snapshot: at any time in any run of a new manager, a snapshot is
-- drained, or a goroutine has found that it is and is about to close its channel, exactly when it is
-- retired and no unreleased lease is on it; and the closing then leaves it drained. The condition is
-- that the 64-bit generations do not run out.
pub drained_exactly :
    (routing : RoutingConfig) (providers : List (Option Provider)) (xs : List Step) (g : ℕ)
    (s : Snapshot)
    → 1 + length xs < 2 ^ 64
    → lookup g (run xs (initial routing providers)).heap ≡ some s
    → ((s.drained || s.draining)
        ≡ (s.retired && held g (run xs (initial routing providers)).leases == 0))
      × ((close_drained s).drained
          ≡ (s.retired && held g (run xs (initial routing providers)).leases == 0))
unfolding close_drained
drained_exactly routing providers xs g s room found =
    let v = run-IsSound xs (initial routing providers) room (initial-IsSound routing providers) in
    let counted = v.counted g s found in
    (ground (arith, counted.held, counted.drained), ground (arith, counted.held, counted.drained))
