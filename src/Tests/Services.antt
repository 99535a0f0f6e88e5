-- ===== src/Tests/Services.antt =====
-- Runs of the runtime manager and of the control plane's components.
use ya_router.Common.{
  true, false, some, List, [], ◌∷◌, ◌≡◌, refl, arith, ◌&&◌, ◌||◌, ◌==◌, lookup, put, nat_key,
}
use ya_router.Runtime.{Lease, Snapshot, close_drained, try_lease, try_acquire, new_snapshot}
use ya_router.Runtime.Count.{held}
use ya_router.Runtime.Steps.{Step, tries, publishes, run, step}
use ya_router.Runtime.Runs.{initial, drained_of, leased_not_drained, drained_exactly}
use ya_router.Runtime.Acquire.{Round, acquire, has_quiet_round, steps_of, Answered, acquire_ends}
use ya_router.Runtime.Quiet.{is_quiet}
use ya_router.Tests.Samples.{sample_router}

abbrev one_held : List Step
one_held = tries 1 ∷ []

abbrev held_lease : Lease
held_lease = record { snapshot = 1; released = false }

abbrev held_snapshot : Snapshot
held_snapshot = record (new_snapshot 1 sample_router.routing []) { active = 1 }

lease_on_first : lookup 1 (run one_held (initial sample_router.routing [])).leases ≡ some held_lease
unfolding lookup put run step try_lease try_acquire new_snapshot
lease_on_first = refl

first_held : lookup 1 (run one_held (initial sample_router.routing [])).heap ≡ some held_snapshot
unfolding lookup put run step try_lease try_acquire new_snapshot
first_held = refl

leased_not_drained_example :
    drained_of (lookup 1 (run one_held (initial sample_router.routing [])).heap) ≡ some false
leased_not_drained_example =
    leased_not_drained sample_router.routing [] one_held 1 held_lease (omega arith) lease_on_first
      refl

drained_exactly_example :
    ((held_snapshot.drained || held_snapshot.draining) ≡ (
      held_snapshot.retired
      && held 1 (run one_held (initial sample_router.routing [])).leases == 0))
    × ((close_drained held_snapshot).drained ≡ (
        held_snapshot.retired
        && held 1 (run one_held (initial sample_router.routing [])).leases == 0))
drained_exactly_example =
    drained_exactly sample_router.routing [] one_held 1 held_snapshot (omega arith) first_held

-- A publication comes between the load and the attempt of the first round.
abbrev overtaken : List Round
overtaken =
    record { before = []; between = publishes (some sample_router.routing) [] ∷ [] }
    ∷ record { before = tries 2 ∷ []; between = tries 2 ∷ [] }
    ∷ []

overtaken_once : has_quiet_round overtaken ≡ true
unfolding has_quiet_round is_quiet
overtaken_once = refl

acquire_ends_example :
    Answered (acquire overtaken (run one_held (initial sample_router.routing [])))
unfolding steps_of
acquire_ends_example =
    acquire_ends sample_router.routing [] one_held overtaken (omega arith) overtaken_once
