-- ===== src/Tests/Upstreams.antt =====
-- A circuit breaker that has opened, the writer of an attempt, and retries.
use ya_router.Common.{ℕ, codes, some, List, [], ◌∷◌, ◌≡◌, ◌≤◌, refl, true, false}
use ya_router.Dispatch.Upstream.{on_failure, make_request_with_retry, Try}
use ya_router.Dispatch.Breaker.{
  BreakerCall, fails, breaker_call, breaker_run, new_breaker, is_closed, granted, one_probe,
}
use ya_router.Dispatch.Writer.{WriterCall, writes_header, writes, sets, flushes}
use ya_router.Dispatch.Retries.{requests_sent}

abbrev five_failures : List BreakerCall
five_failures = fails 1 ∷ fails 2 ∷ fails 3 ∷ fails 4 ∷ fails 5 ∷ []

five_failures_open : is_closed (breaker_run five_failures (new_breaker 30)).state ≡ false
unfolding breaker_run breaker_call on_failure
five_failures_open = refl

one_probe_example : granted (10 ∷ 50 ∷ 51 ∷ []) (breaker_run five_failures (new_breaker 30)) ≤ 1
one_probe_example = one_probe 30 five_failures (10 ∷ 50 ∷ 51 ∷ []) five_failures_open

abbrev not_found : List WriterCall
not_found =
    sets (codes "Retry-After") (codes "7")
    ∷ writes_header 404
    ∷ writes (1 ∷ [])
    ∷ flushes
    ∷ writes (2 ∷ [])
    ∷ []

abbrev always_down : ℕ → Try
always_down n = record { answer = some 503; cancelled = false }

requests_sent_example :
    ((make_request_with_retry always_down true []).1 ≤ 3)
    × ((make_request_with_retry always_down false []).1 ≡ 1)
requests_sent_example = requests_sent always_down true []
