-- ===== src/Dispatch/Retries.antt =====
-- src/proxy.go: how often a request is sent.
use ya_router.Common.{
  ℕ, zero, suc, ◌+◌, ◌≤◌, Text, Bool, false, Option, none, some, [], ◌≡◌, refl, arith, is_empty,
  not, ◌||◌,
}
use ya_router.Dispatch.Upstream.{
  Try, Retried, after_try, retry_loop, make_request_with_retry, max_chat_retries,
}

once_after :
    (attempt : ℕ) (t : Try) (o : Option ℕ) (rest : Retried × ℕ)
    → (after_try false attempt t o rest).1 ≡ attempt
once_after attempt t none rest = refl
once_after attempt t (some status) rest = ground arith

within_after :
    (allowed : Bool) (attempt : ℕ) (t : Try) (o : Option ℕ) (rest : Retried × ℕ)
    → attempt ≤ max_chat_retries
    → rest.1 ≤ max_chat_retries
    → (after_try allowed attempt t o rest).1 ≤ max_chat_retries
within_after allowed attempt t none rest h k = ground (arith, h, k)
within_after allowed attempt t (some status) rest h k = ground (arith, h, k)

within_loop :
    (tries : ℕ → Try) (allowed : Bool) (attempt left : ℕ)
    → attempt + left ≤ 4
    → (retry_loop tries allowed attempt left).1 ≤ max_chat_retries
unfolding retry_loop
within_loop tries allowed attempt zero h = omega (arith, h)
within_loop tries allowed attempt (suc left) h =
    within_after allowed attempt (tries attempt) (tries attempt).answer _ (omega (arith, h))
      (within_loop tries allowed (attempt + 1) left (omega (arith, h)))

first_only : (tries : ℕ → Try) → (retry_loop tries false 1 max_chat_retries).1 ≡ 1
unfolding retry_loop
first_only tries = once_after 1 (tries 1) (tries 1).answer _

-- A request is sent at most three times, whatever the upstream answers; and once only, if its method
-- is not safe and it has no idempotency key.
pub requests_sent :
    (tries : ℕ → Try) (safe_method : Bool) (idempotency_key : Text)
    → ((make_request_with_retry tries safe_method idempotency_key).1 ≤ 3)
      × ((make_request_with_retry tries false []).1 ≡ 1)
unfolding make_request_with_retry
requests_sent tries safe_method idempotency_key = (
  within_loop tries (safe_method || not (is_empty idempotency_key)) 1 max_chat_retries
      (omega arith),
  first_only tries,
)
