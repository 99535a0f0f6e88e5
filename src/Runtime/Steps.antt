-- ===== src/Runtime/Steps.antt =====
-- internal/runtime: runs of the manager. A caller may hold a pointer that it loaded long ago, so it
-- may try any snapshot; `publishLocked`, `Close`, `release` and `retire` take several steps, between
-- which others run.
use ya_router.Common.{ℕ, Option, List, [], ◌∷◌, lookup, nat_key}
use ya_router.Provider.{Provider}
use ya_router.Config.{RoutingConfig}
use ya_router.Runtime.{
  Manager, on_snapshot, close_drained, current_of, try_lease, release_lease, publish,
  publish_providers, retire_next, close, untrack,
}

pub data Step : Type 0 where
  tries releases retires drains untracks : ℕ → Step
  publishes : Option RoutingConfig → List (Option Provider) → Step
  publishes_providers : List (Option Provider) → Step
  closes : Step

unfoldable pub step : Step → Manager → Manager
unfolding close_drained
step (tries g) m = (try_lease g m (lookup g m.heap)).0
step (releases l) m = release_lease l m (lookup l m.leases)
step (retires g) m = retire_next g m
step (drains g) m = on_snapshot g close_drained m (lookup g m.heap)
step (untracks g) m = untrack g m (lookup g m.heap)
step (publishes routing providers) m = (publish routing providers m).0
step (publishes_providers providers) m = (publish_providers providers m (current_of m m.current)).0
step closes m = close m

unfoldable pub run : List Step → Manager → Manager
unfolding step
run [] m = m
run (x ∷ xs) m = run xs (step x m)
