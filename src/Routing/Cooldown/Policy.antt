-- ===== src/Routing/Cooldown/Policy.antt =====
-- internal/routing/cooldown.go: what a dispatched request's outcome does to its target.
pub mod Statuses
use ya_router.Common.{
  ℕ, Text, codes, Bool, true, false, Option, none, some, ℤ, exceeds, ltb, leb, ◌==◌, not, ◌&&◌,
  ◌||◌, if◌then◌else◌,
}
use ya_router.Provider.{Time}
use ya_router.Availability.{
  CooldownReason, rate_limited, entitlement_denied, auth_required, transient_failure, timeout,
  quota_exhausted,
}
use ya_router.Routing.Prefixes.{strip_model_prefix}
use ya_router.Routing.Metrics.{Metrics, record_cooldown_entry, record_cooldown_exit}
use ya_router.Routing.Cooldown.Entry.{max_cooldown}
use ya_router.Routing.Cooldown.Registry.{CooldownRegistry, record_cooldown, clear, is_some}

-- What the policy tells apart of Go's `error`: nil, one that `errors.Is` finds to be
-- `context.Canceled`, one that is not but is `context.DeadlineExceeded`, any other.
pub data DispatchError : Type 0 where
  no_error canceled deadline_exceeded other_error : DispatchError

abbrev pub is_canceled : DispatchError → Bool
is_canceled canceled = true
is_canceled _ = false

abbrev pub is_deadline_exceeded : DispatchError → Bool
is_deadline_exceeded deadline_exceeded = true
is_deadline_exceeded _ = false

abbrev pub is_nil : DispatchError → Bool
is_nil no_error = true
is_nil _ = false

unfoldable pub cooldown_reason : ℕ → DispatchError → Option CooldownReason
cooldown_reason status err =
    if is_canceled err
    then none
    else if is_deadline_exceeded err || (status == 408 || status == 504)
    then some timeout
    else if status == 429
    then some rate_limited
    else if status == 401
    then some auth_required
    else if status == 402 || status == 403
    then some entitlement_denied
    else if leb 500 status || not (is_nil err)
    then some transient_failure
    else none

-- the reason and the hint that is passed on
unfoldable pub cooldown_policy : ℕ → DispatchError → ℤ → Option (CooldownReason × ℤ)
cooldown_policy status err retry_after = elim (cooldown_reason status err) [
  | none ↦ none
  | some reason ↦
      if status == 402 || status == 403
      then some (quota_exhausted, retry_after)
      else if status == 429
      then (if exceeds retry_after 0 && not (exceeds retry_after max_cooldown)
          then some (rate_limited, retry_after)
          else some (quota_exhausted, retry_after))
      else some (reason, retry_after)
]

-- The target and capability of a selection are all that `RecordOutcome` reads of it.
unfoldable pub record_outcome :
    Text
    → Text
    → ℕ
    → DispatchError
    → ℤ
    → Time
    → Bool
    → CooldownRegistry × Metrics
    → CooldownRegistry × Metrics
record_outcome target capability status err retry_after now replaced (r, m) =
    let stripped = strip_model_prefix target in
    let recovery = clear stripped.provider_id stripped.bare capability replaced r in
    if not stripped.found
    then (r, m)
    else if leb 200 status && (ltb status 300 && is_nil err)
    then (recovery.0, if recovery.1 then record_cooldown_exit target (codes "recovered") m else m)
    else elim (cooldown_policy status err retry_after) [
      | none ↦ (r, m)
      | some (reason, hint) ↦
          let entered =
            record_cooldown stripped.provider_id stripped.bare capability reason hint now replaced
              r in
          (entered.0, if is_some entered.1 then record_cooldown_entry target reason m else m)
    ]
