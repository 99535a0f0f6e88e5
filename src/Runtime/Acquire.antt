-- ===== src/Runtime/Acquire.antt =====
-- internal/runtime/manager.go: the loop of `Acquire`, with the steps of others in between, and when
-- it ends.
use ya_router.Common.{
  ℕ, ◌+◌, ◌^◌, ◌≤◌, ◌<◌, ◌≡◌, ◌≢◌, refl, ◌∙◌, subst, arith, Bool, true, false, Option, none, some,
  List, [], ◌∷◌, lookup, lookup-put_self, nat_key, length, branch_by, ◌||◌, ◌⊎◌, inl, inr,
}
use ya_router.Config.{RoutingConfig}
use ya_router.Provider.{Provider}
use ya_router.Runtime.{
  Snapshot, Manager, RuntimeError, try_acquire, with_lease, take_lease, try_lease, manager_closed,
}
use ya_router.Runtime.Steps.{Step, run}
use ya_router.Runtime.Sound.{is_usable, IsSound}
use ya_router.Runtime.Leases.{try_lease-IsSound}
use ya_router.Runtime.Runs.{run-IsSound, initial, initial-IsSound}
use ya_router.Runtime.Quiet.{is_quiet, current-run, generation-run}

-- What others do before a round of the loop, and between its load and its attempt.
pub record Round : Type 0 where
  pub before : List Step
  pub between : List Step

abbrev pub lease_found : Option ℕ → Option (RuntimeError ⊎ ℕ)
lease_found none = none
lease_found (some l) = some (inr l)

-- One round after the load of `current`; the result is the lease, or the error of a closed manager,
-- or `none` for another round.
unfoldable pub acquire_round : List Step → Manager → Option ℕ → Manager × Option (RuntimeError ⊎ ℕ)
unfolding try_lease
acquire_round between m none = (m, some (inl manager_closed))
acquire_round between m (some g) =
    let loaded = run between m in
    let tried = try_lease g loaded (lookup g loaded.heap) in (tried.0, lease_found tried.1)

abbrev pub again :
    Manager × Option (RuntimeError ⊎ ℕ)
    → (Manager → Manager × Option (RuntimeError ⊎ ℕ))
    → Manager × Option (RuntimeError ⊎ ℕ)
again (m, some r) next = (m, some r)
again (m, none) next = next m

-- `Acquire` for as many rounds as are given, `none` after the last
unfoldable pub acquire : List Round → Manager → Manager × Option (RuntimeError ⊎ ℕ)
unfolding acquire_round
acquire [] m = (m, none)
acquire (r ∷ rs) m =
    let ready = run r.before m in
    again (acquire_round r.between ready ready.current) (λ n. acquire rs n)

-- a round with neither between its load and its attempt
unfoldable pub has_quiet_round : List Round → Bool
unfolding is_quiet
has_quiet_round [] = false
has_quiet_round (r ∷ rs) = is_quiet r.between || has_quiet_round rs

unfoldable pub steps_of : List Round → ℕ
steps_of [] = 0
steps_of (r ∷ rs) = length r.before + length r.between + steps_of rs

-- The lease `l` is new and holds the snapshot `g`, which is not retired.
pub record IsHeld (g l : ℕ) (m : Manager) : Type 0 where
  pub lease : lookup l m.leases ≡ some (record { snapshot = g; released = false })
  pub usable : is_usable (lookup g m.heap) ≡ true

-- What `Acquire` may answer: the error of a closed manager, which has no current snapshot, or a
-- lease on a snapshot that is not retired.
abbrev pub IsAnswer : Manager → RuntimeError ⊎ ℕ → Type 0
IsAnswer m (inl e) = (e ≡ manager_closed) × (m.current ≡ none)
IsAnswer m (inr l) = (g : ℕ) × IsHeld g l m

abbrev pub Answered : Manager × Option (RuntimeError ⊎ ℕ) → Type 0
Answered z = (r : RuntimeError ⊎ ℕ) × ((z.1 ≡ some r) × IsAnswer z.0 r)

again-Answered :
    (z : Manager × Option (RuntimeError ⊎ ℕ)) (next : Manager → Manager × Option (RuntimeError ⊎ ℕ))
    → ((r : RuntimeError ⊎ ℕ) → z.1 ≡ some r → IsAnswer z.0 r)
    → (z.1 ≡ none → Answered (next z.0))
    → Answered (again z next)
again-Answered (m, some r) next h k = (r, (refl, h r refl))
again-Answered (m, none) next h k = k refl

-- What a round may come to, on the manager `m` that it loads from.
record IsRound (quiet : Bool) (k : ℕ) (z : Manager × Option (RuntimeError ⊎ ℕ)) : Type 0 where
  answer : (r : RuntimeError ⊎ ℕ) → z.1 ≡ some r → IsAnswer z.0 r
  sound : IsSound z.0
  reached : z.0.generation ≤ k
  ended : quiet ≡ true → z.1 ≢ none

lease-IsHeld :
    (g : ℕ) (m : Manager) (s : Snapshot)
    → s.retired ≡ false
    → IsHeld g (m.next_lease + 1) (with_lease g (record s { active = s.active + 1 }) m)
lease-IsHeld g m s fresh = record {
  lease = lookup-put_self (m.next_lease + 1) (record { snapshot = g; released = false }) m.leases;
  usable = ground (arith, fresh, lookup-put_self g (record s { active = s.active + 1 }) m.heap);
}

held-IsAnswer :
    (g : ℕ) (m : Manager) (s : Snapshot)
    → s.retired ≡ false
    → (r : RuntimeError ⊎ ℕ) → some (inr (m.next_lease + 1)) ≡ some r
    → IsAnswer (with_lease g (record s { active = s.active + 1 }) m) r
held-IsAnswer g m s fresh (inl e) h = absurd (ground (arith, h))
held-IsAnswer g m s fresh (inr l) h = (
  g,
  subst (λ k. IsHeld g k (with_lease g (record s { active = s.active + 1 }) m)) (ground (arith, h))
      (lease-IsHeld g m s fresh),
)

taken-IsRound :
    (g k : ℕ) (quiet : Bool) (m : Manager) (s : Snapshot)
    → (quiet ≡ true → is_usable (some s) ≡ true)
    → m.generation ≤ k
    → IsSound (take_lease g m (try_acquire s)).0
    → IsRound quiet k
        ((take_lease g m (try_acquire s)).0, lease_found (take_lease g m (try_acquire s)).1)
unfolding try_acquire
taken-IsRound g k quiet m s usable reached =
    branch_by
      (λ (z : Snapshot × Bool).
        IsSound (take_lease g m z).0
        → IsRound quiet k ((take_lease g m z).0, lease_found (take_lease g m z).1))
      s.retired
      (λ retired kept. record {
        answer = λ r e. absurd (ground (arith, e));
        sound = kept;
        reached = reached;
        ended = λ q. absurd (ground (arith, usable q, retired));
      })
      (λ fresh kept. record {
        answer = held-IsAnswer g m s fresh;
        sound = kept;
        reached = reached;
        ended = λ q e. ground (arith, e);
      })

try_lease-IsRound :
    (g k : ℕ) (quiet : Bool) (m : Manager) (o : Option Snapshot)
    → lookup g m.heap ≡ o
    → (quiet ≡ true → is_usable o ≡ true)
    → m.generation ≤ k
    → IsSound m
    → IsRound quiet k ((try_lease g m o).0, lease_found (try_lease g m o).1)
unfolding try_lease try_acquire
try_lease-IsRound g k quiet m none found usable reached v = record {
  answer = λ r e. absurd (ground (arith, e));
  sound = v;
  reached = reached;
  ended = λ q. absurd (ground (arith, usable q));
}
try_lease-IsRound g k quiet m (some s) found usable reached v =
    let kept = try_lease-IsSound g m (some s) found v in
    taken-IsRound g k quiet m s usable reached kept

closed-IsAnswer :
    (m : Manager) (r : RuntimeError ⊎ ℕ)
    → m.current ≡ none
    → some (inl manager_closed) ≡ some r
    → IsAnswer m r
closed-IsAnswer m (inl e) found h = (ground (arith, h), found)
closed-IsAnswer m (inr l) found h = absurd (ground (arith, h))

later_quiet : (a b : Bool) → (a || b) ≡ true → (a ≡ true → a ≢ true) → b ≡ true
later_quiet true b h k = absurd (k refl refl)
later_quiet false b h k = h

-- A round that loads from the manager `m`.
acquire_round-IsRound :
    (between : List Step) (k : ℕ) (m : Manager) (o : Option ℕ)
    → m.current ≡ o
    → m.generation + length between ≤ k
    → k < 2 ^ 64
    → IsSound m
    → IsRound (is_quiet between) k (acquire_round between m o)
unfolding acquire_round
acquire_round-IsRound between k m none found room top v = record {
  answer = λ r e. closed-IsAnswer m r found e;
  sound = v;
  reached = omega (arith, room);
  ended = λ q e. ground (arith, e);
}
acquire_round-IsRound between k m (some g) found room top v =
    let n = run between m in
    let w = run-IsSound between m (omega (arith, room, top)) v in
    try_lease-IsRound g k (is_quiet between) n (lookup g n.heap) refl
      (λ q. w.usable g (current-run between m q ∙ found))
      (omega (arith, room, generation-run between m (omega (arith, room, top)))) w

acquire-Answered :
    (rs : List Round) (m : Manager)
    → m.generation + steps_of rs < 2 ^ 64
    → IsSound m
    → has_quiet_round rs ≡ true
    → Answered (acquire rs m)
unfolding acquire has_quiet_round steps_of
acquire-Answered [] m room v h = absurd (ground (arith, h))
acquire-Answered (r ∷ rs) m room v h =
    let n = run r.before m in
    let k = m.generation + length r.before + length r.between in
    let top = generation-run r.before m (omega (arith, room)) in
    let round =
      acquire_round-IsRound r.between k n n.current refl (omega (arith, top)) (omega (arith, room))
        (run-IsSound r.before m (omega (arith, room)) v) in
    again-Answered (acquire_round r.between n n.current) (λ p. acquire rs p) round.answer
      (λ missed.
        acquire-Answered rs (acquire_round r.between n n.current).0
          (omega (arith, room, round.reached)) round.sound
          (later_quiet (is_quiet r.between) (has_quiet_round rs) h
            (λ q. absurd (round.ended q missed))))

-- The loop of `Acquire` ends as soon as nobody publishes or closes between the load and the attempt
-- of one of its rounds, whatever others do before and in the other rounds: at any time in any run of
-- a new manager, it then answers; the error of a closed manager only if there is no current
-- snapshot, and otherwise a lease that is not released, on a snapshot that is not retired. The
-- condition is that the 64-bit generations do not run out.
pub acquire_ends :
    (routing : RoutingConfig) (providers : List (Option Provider)) (xs : List Step)
    (rounds : List Round)
    → 1 + length xs + steps_of rounds < 2 ^ 64
    → has_quiet_round rounds ≡ true
    → Answered (acquire rounds (run xs (initial routing providers)))
acquire_ends routing providers xs rounds room quiet =
    let start = initial-IsSound routing providers in
    acquire-Answered rounds (run xs (initial routing providers))
      (omega (arith, room, generation-run xs (initial routing providers) (omega (arith, room))))
      (run-IsSound xs (initial routing providers) (omega (arith, room)) start) quiet
