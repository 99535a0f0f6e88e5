-- ===== src/Runtime.antt =====
-- internal/runtime/manager.go and internal/runtime/snapshot.go: the published snapshots, the leases
-- that pin them, and their retirement. A pointer to a snapshot is its generation, which no two
-- snapshots share; the snapshots that were ever published stay on the heap.
pub mod Steps
pub mod Count
pub mod Sound
pub mod Leases
pub mod Safety
pub mod Runs
pub mod Quiet
pub mod Acquire
use ya_router.Common.{
  ℕ, suc, ◌+◌, ◌-◌, ◌%◌, ◌^◌, Text, Bool, true, false, Option, none, some, List, [], ◌∷◌, Dict,
  lookup, put, nat_key, text_key, ◌=?◌, ◌⊎◌, ◌++◌, inl, inr, ltb, ◌==◌, contains, is_empty, length,
  not, ◌&&◌, ◌||◌, if◌then◌else◌,
}
use ya_router.Provider.{Provider}
use ya_router.Provider.Registry.{Registry, new_registry, freeze}
use ya_router.Config.{RoutingConfig}

-- `active` and `retired` are guarded by the mutex of the snapshot; `drained` says whether the channel
-- is closed, and `draining` whether a goroutine has unlocked the mutex and is about to close it.
pub record Snapshot : Type 0 where
  pub generation : ℕ
  pub routing : RoutingConfig
  pub providers : Registry
  pub active : ℕ
  pub retired : Bool
  pub draining : Bool
  pub drained : Bool

pub record Lease : Type 0 where
  pub snapshot : ℕ
  pub released : Bool

-- `retiring` are the snapshots that `publishLocked` has swapped out, or `Close` has collected, and
-- that it retires next.
pub record Manager : Type 0 where
  pub current : Option ℕ
  pub closed : Bool
  pub generation : ℕ
  pub heap : Dict ℕ Snapshot
  pub live : List ℕ
  pub retiring : List ℕ
  pub leases : Dict ℕ Lease
  pub next_lease : ℕ

pub data RuntimeError : Type 0 where
  manager_closed config_required nil_provider empty_provider_id : RuntimeError
  duplicated_provider : Text → RuntimeError

-- the loop of `validateProviders` after the IDs `seen`; `none` in the list is a nil provider
unfoldable pub validate_providers : List Text → List (Option Provider) → Option RuntimeError
validate_providers seen [] = none
validate_providers seen (none ∷ ps) = some nil_provider
validate_providers seen (some p ∷ ps) =
    let rest = validate_providers (p.id ∷ seen) ps in
    if is_empty p.id
    then some empty_provider_id
    else if contains p.id seen
    then some (duplicated_provider p.id)
    else rest

unfoldable pub new_snapshot : ℕ → RoutingConfig → List (Option Provider) → Snapshot
new_snapshot generation routing providers = record {
  generation = generation;
  routing = routing;
  providers = freeze (new_registry providers);
  active = 0;
  retired = false;
  draining = false;
  drained = false;
}

unfoldable pub try_acquire : Snapshot → Snapshot × Bool
try_acquire s = if s.retired then (s, false) else (record s { active = s.active + 1 }, true)

-- `release` up to the unlocking
unfoldable pub release : Snapshot → Snapshot
release s =
    let active = if ltb 0 s.active then s.active - 1 else s.active in
    record s { active = active; draining = s.draining || (s.retired && active == 0) }

-- `retire` up to the unlocking
unfoldable pub retire : Snapshot → Snapshot
retire s = record s { retired = true; draining = s.draining || s.active == 0 }

-- the end of `release` and of `retire`: a channel that is closed stays closed
unfoldable pub close_drained : Snapshot → Snapshot
close_drained s = if s.draining then record s { draining = false; drained = true } else s

abbrev pub is_drained : Snapshot → Bool
is_drained s = s.drained

-- `NewManager`, on the registries that it opens
unfoldable pub new_manager : Option RoutingConfig → List (Option Provider) → RuntimeError ⊎ Manager
unfolding validate_providers new_snapshot
new_manager none providers = inl config_required
new_manager (some routing) providers = elim (validate_providers [] providers) [
  | some e ↦ inl e
  | none ↦ inr (record {
    current = some 1;
    closed = false;
    generation = 1;
    heap = (1, new_snapshot 1 routing providers) ∷ [];
    live = 1 ∷ [];
    retiring = [];
    leases = [];
    next_lease = 0;
  })
]

abbrev pub on_snapshot : ℕ → (Snapshot → Snapshot) → Manager → Option Snapshot → Manager
on_snapshot g f m none = m
on_snapshot g f m (some s) = record m { heap = put g (f s) m.heap }

-- the manager with a new lease on the snapshot `g`, which is now `s`
abbrev pub with_lease : ℕ → Snapshot → Manager → Manager
with_lease g s m = record m {
  heap = put g s m.heap;
  leases = put (m.next_lease + 1) (record { snapshot = g; released = false }) m.leases;
  next_lease = m.next_lease + 1;
}

abbrev pub take_lease : ℕ → Manager → Snapshot × Bool → Manager × Option ℕ
take_lease g m (s, true) = (with_lease g s m, some (m.next_lease + 1))
take_lease g m (s, false) = (m, none)

-- `tryAcquire` on the snapshot `g`, and the lease of `Acquire` if it succeeds
unfoldable pub try_lease : ℕ → Manager → Option Snapshot → Manager × Option ℕ
unfolding try_acquire
try_lease g m none = (m, none)
try_lease g m (some s) = take_lease g m (try_acquire s)

-- `Release`, once for each lease
unfoldable pub release_lease : ℕ → Manager → Option Lease → Manager
unfolding release
release_lease l m none = m
release_lease l m (some lease) =
    if lease.released
    then m
    else on_snapshot lease.snapshot release
        (record m { leases = put l (record lease { released = true }) m.leases })
        (lookup lease.snapshot m.heap)

abbrev pub with_old : Option ℕ → List ℕ → List ℕ
with_old none gs = gs
with_old (some g) gs = g ∷ gs

-- `publishLocked` up to the swap of the pointer; the generation is a `uint64`
unfoldable pub swap_in : RoutingConfig → List (Option Provider) → Manager → Manager
unfolding new_snapshot
swap_in routing providers m =
    let g = (m.generation + 1) % 2 ^ 64 in
    record m {
      generation = g;
      heap = put g (new_snapshot g routing providers) m.heap;
      live = g ∷ m.live;
      current = some g;
      retiring = with_old m.current m.retiring;
    }

-- `publishLocked` after `validateProviders`, whose error it is given
abbrev pub publish_checked :
    RoutingConfig
    → List (Option Provider)
    → Manager
    → Option RuntimeError
    → Manager × Option RuntimeError
publish_checked routing providers m (some e) = (m, some e)
publish_checked routing providers m none = (swap_in routing providers m, none)

unfoldable pub publish :
    Option RoutingConfig → List (Option Provider) → Manager → Manager × Option RuntimeError
unfolding swap_in validate_providers
publish none providers m = if m.closed then (m, some manager_closed) else (m, some config_required)
publish (some routing) providers m =
    if m.closed
    then (m, some manager_closed)
    else publish_checked routing providers m (validate_providers [] providers)

-- `PublishProviders` with the snapshot that it loads as current
unfoldable pub publish_providers :
    List (Option Provider) → Manager → Option Snapshot → Manager × Option RuntimeError
unfolding publish
publish_providers providers m none = (m, some manager_closed)
publish_providers providers m (some s) = publish (some s.routing) providers m

abbrev pub current_of : Manager → Option ℕ → Option Snapshot
current_of m none = none
current_of m (some g) = lookup g m.heap

unfoldable pub drop_generation : ℕ → List ℕ → List ℕ
drop_generation g [] = []
drop_generation g (h ∷ hs) = let rest = drop_generation g hs in if h == g then rest else h ∷ rest

-- `retire` of a snapshot that waits for it
unfoldable pub retire_next : ℕ → Manager → Manager
unfolding retire drop_generation
retire_next g m =
    if contains g m.retiring
    then on_snapshot g retire (record m { retiring = drop_generation g m.retiring })
        (lookup g m.heap)
    else m

-- `Close` up to the loop that retires the live snapshots
unfoldable pub close : Manager → Manager
close m =
    if m.closed
    then m
    else record m { closed = true; current = none; retiring = m.live ++ m.retiring }

-- the goroutine of `track`, when the snapshot has drained
unfoldable pub untrack : ℕ → Manager → Option Snapshot → Manager
unfolding drop_generation
untrack g m none = m
untrack g m (some s) = if s.drained then record m { live = drop_generation g m.live } else m

-- `Pending` of the retirement of the snapshots
unfoldable pub pending : List ℕ → Manager → ℕ
pending [] m = 0
pending (g ∷ gs) m =
    let rest = pending gs m in
    elim (lookup g m.heap) [ none ↦ rest | some s ↦ if s.drained then rest else suc rest ]
