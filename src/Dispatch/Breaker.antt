-- ===== src/Dispatch/Breaker.antt =====
-- src/proxy.go: runs of a circuit breaker.
use ya_router.Common.{
  ℕ, ◌+◌, ◌-◌, ◌≤◌, Bool, true, false, List, [], ◌∷◌, ◌≡◌, refl, arith, ltb, leb, not, ◌&&◌,
  if◌then◌else◌, ◌⊎◌, inl, inr, Bool-cases,
}
use ya_router.Dispatch.Upstream.{
  CircuitBreaker, CircuitBreakerState, circuit_closed, circuit_open, circuit_half_open, can_execute,
  on_success, on_failure, failure_threshold,
}

pub data BreakerCall : Type 0 where
  executes fails : ℕ → BreakerCall
  succeeds : BreakerCall

unfoldable pub breaker_call : BreakerCall → CircuitBreaker → CircuitBreaker
breaker_call (executes now) cb = (can_execute now cb).0
breaker_call (fails now) cb = on_failure now cb
breaker_call succeeds cb = on_success cb

unfoldable pub breaker_run : List BreakerCall → CircuitBreaker → CircuitBreaker
unfolding breaker_call
breaker_run [] cb = cb
breaker_run (x ∷ xs) cb = breaker_run xs (breaker_call x cb)

abbrev pub new_breaker : ℕ → CircuitBreaker
new_breaker timeout = record {
  failure_count = 0;
  last_failure_time = 0;
  state = circuit_closed;
  timeout = timeout;
  probe_in_flight = false;
}

-- What the state of a breaker says.
abbrev pub is_sound : CircuitBreakerState → ℕ → Bool → Bool
is_sound circuit_closed count probe = ltb count failure_threshold && not probe
is_sound circuit_open count probe = leb failure_threshold count && not probe
is_sound circuit_half_open count probe = leb failure_threshold count && probe

abbrev pub IsSound : CircuitBreaker → Type 0
IsSound cb = is_sound cb.state cb.failure_count cb.probe_in_flight ≡ true

state_executes :
    (now : ℕ) (cb : CircuitBreaker) (s : CircuitBreakerState)
    → cb.state ≡ s
    → IsSound cb
    → IsSound (can_execute now cb).0
unfolding can_execute
state_executes now cb circuit_closed e v = ground (arith, e, v)
state_executes now cb circuit_open e v = ground (arith, e, v)
state_executes now cb circuit_half_open e v = ground (arith, e, v)

failure-IsSound :
    (now : ℕ) (cb : CircuitBreaker) (s : CircuitBreakerState)
    → cb.state ≡ s
    → IsSound cb
    → IsSound (on_failure now cb)
unfolding on_failure
failure-IsSound now cb circuit_closed e v = ground (arith, e, v)
failure-IsSound now cb circuit_open e v = ground (arith, e, v)
failure-IsSound now cb circuit_half_open e v = ground (arith, e, v)

call-IsSound : (x : BreakerCall) (cb : CircuitBreaker) → IsSound cb → IsSound (breaker_call x cb)
unfolding breaker_call on_success
call-IsSound (executes now) cb v = state_executes now cb cb.state refl v
call-IsSound (fails now) cb v = failure-IsSound now cb cb.state refl v
call-IsSound succeeds cb v = refl

run-IsSound :
    (xs : List BreakerCall) (cb : CircuitBreaker) → IsSound cb → IsSound (breaker_run xs cb)
unfolding breaker_run
run-IsSound [] cb v = v
run-IsSound (x ∷ xs) cb v = run-IsSound xs (breaker_call x cb) (call-IsSound x cb v)

abbrev pub one_if : Bool → ℕ
one_if b = if b then 1 else 0

-- How many requests a breaker lets through that ask at these times and do not report back.
unfoldable pub granted : List ℕ → CircuitBreaker → ℕ
granted [] cb = 0
granted (now ∷ ts) cb = one_if (can_execute now cb).1 + granted ts (can_execute now cb).0

probing_refuses :
    (now : ℕ) (cb : CircuitBreaker)
    → cb.state ≡ circuit_half_open
    → cb.probe_in_flight ≡ true
    → ((can_execute now cb).1 ≡ false)
      × (((can_execute now cb).0.state ≡ circuit_half_open)
          × ((can_execute now cb).0.probe_in_flight ≡ true))
unfolding can_execute
probing_refuses now cb half probe =
    (ground (arith, half, probe), (ground (arith, half, probe), ground (arith, half, probe)))

open_answers :
    (now : ℕ) (cb : CircuitBreaker)
    → cb.state ≡ circuit_open
    → (((can_execute now cb).1 ≡ false) × ((can_execute now cb).0.state ≡ circuit_open))
      ⊎ (((can_execute now cb).1 ≡ true)
          × (((can_execute now cb).0.state ≡ circuit_half_open)
              × ((can_execute now cb).0.probe_in_flight ≡ true)))
unfolding can_execute
open_answers now cb is_open = elim (Bool-cases (ltb cb.timeout (now - cb.last_failure_time))) [
  | inl late ↦ inr (
    ground (arith, is_open, late),
    (ground (arith, is_open, late), ground (arith, is_open, late)),
  )
  | inr early ↦ inl (ground (arith, is_open, early), ground (arith, is_open, early))
]

-- A probe is on its way.
probing-granted :
    (ts : List ℕ) (cb : CircuitBreaker)
    → cb.state ≡ circuit_half_open
    → cb.probe_in_flight ≡ true
    → granted ts cb ≡ 0
unfolding granted
probing-granted [] cb half probe = refl
probing-granted (now ∷ ts) cb half probe =
    let refused = probing_refuses now cb half probe in
    ground (arith, refused.0, probing-granted ts (can_execute now cb).0 refused.1.0 refused.1.1)

open-granted : (ts : List ℕ) (cb : CircuitBreaker) → cb.state ≡ circuit_open → granted ts cb ≤ 1
unfolding granted
open-granted [] cb is_open = omega arith
open-granted (now ∷ ts) cb is_open = elim (open_answers now cb is_open) [
  | inl (refused, still) ↦ ground (arith, refused, open-granted ts (can_execute now cb).0 still)
  | inr (granted, (half, probe)) ↦
      ground (arith, granted, probing-granted ts (can_execute now cb).0 half probe)
]

abbrev pub is_closed : CircuitBreakerState → Bool
is_closed circuit_closed = true
is_closed _ = false

sound-granted :
    (ts : List ℕ) (cb : CircuitBreaker) (s : CircuitBreakerState)
    → cb.state ≡ s
    → is_closed s ≡ false
    → IsSound cb
    → granted ts cb ≤ 1
sound-granted ts cb circuit_closed e h v = absurd (ground (arith, h))
sound-granted ts cb circuit_open e h v = open-granted ts cb e
sound-granted ts cb circuit_half_open e h v =
    ground (arith, probing-granted ts cb e (ground (arith, e, v)))

-- An upstream that has failed is tried by one request at a time: after any sequence of requests and
-- reports, a breaker that is not closed lets at most one request through until one reports back, at
-- whatever times they ask.
pub one_probe :
    (timeout : ℕ) (xs : List BreakerCall) (ts : List ℕ)
    → is_closed (breaker_run xs (new_breaker timeout)).state ≡ false
    → granted ts (breaker_run xs (new_breaker timeout)) ≤ 1
one_probe timeout xs ts h =
    sound-granted ts (breaker_run xs (new_breaker timeout)) _ refl h
      (run-IsSound xs (new_breaker timeout) refl)
