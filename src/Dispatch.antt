-- ===== src/Dispatch.antt =====
-- src/proxy.go: the loop of `processProxyRequest` that fails over from one target of a virtual model
-- to the next. What an attempt comes to, and what is read after it, is an argument.
pub mod Left
pub mod Kept
pub mod Ends
pub mod Upstream
pub mod Breaker
pub mod Writer
pub mod Retries
use ya_router.Common.{
  ℕ, zero, suc, Text, Bool, true, false, Option, none, some, List, [], ◌∷◌, ℤ, ltb, leb, ◌==◌,
  trim_space, not, ◌&&◌, ◌||◌, if◌then◌else◌,
}
use ya_router.Provider.{Time}
use ya_router.Routing.Decision.{SelectionDecision}
use ya_router.Routing.Cooldown.Policy.{DispatchError, is_nil, record_outcome}
use ya_router.Routing.Router.{
  Router, RouteResult, RouteError, Resolution, resolved, failed, Readings, resolve_next,
  record_preferred,
}

-- How an attempt ends: the status and the error after `ProxyRequest`, the wait that the response
-- asks for, whether output reached the client, and whether the context has ended; with the readings
-- of `RecordOutcome` and of `ResolveNext`.
pub record Attempt : Type 0 where
  pub status : ℕ
  pub error : DispatchError
  pub retry_after : ℤ
  pub output_committed : Bool
  pub context_done : Bool
  pub now : Time
  pub replaced : Bool
  pub readings : Readings

-- How the request ends, with the number of attempts: an attempt's response is passed on, the
-- context has ended, or no target is left. A route with no selection would be a nil dereference.
pub data Ending : Type 0 where
  answered aborted exhausted : ℕ → Ending
  no_selection out_of_fuel : Ending

unfoldable pub is_eligible_failover_status : ℕ → DispatchError → Bool
is_eligible_failover_status status err =
    not (is_nil err)
    || (status == 429
        || (status == 401
            || (status == 402
                || (status == 403 || (status == 408 || (status == 504 || leb 500 status))))))

abbrev pub succeeded : Attempt → Bool
succeeded a = is_nil a.error && ltb a.status 400

-- `RecordOutcome` on the router
unfoldable pub router_record_outcome : SelectionDecision → Attempt → Router → Router
router_record_outcome d a r =
    let after =
      record_outcome d.selected_target d.capability a.status a.error a.retry_after a.now a.replaced
        (r.cooldowns, r.metrics) in
    record r { cooldowns = after.0; metrics = after.1 }

abbrev pub next_selection :
    (SelectionDecision → Router → Router × Ending)
    → Router
    → Option SelectionDecision
    → Router × Ending
next_selection round r none = (r, no_selection)
next_selection round r (some d) = round d r

-- the end of the loop body, with the next round of the loop as a function
unfoldable pub next_round :
    ℕ → (SelectionDecision → Router → Router × Ending) → Router × Resolution → Router × Ending
next_round n round (r, failed e) = (r, exhausted n)
next_round n round (r, resolved res) = next_selection round r res.selection

-- The loop from the decision `d` on, as attempt `n`, after the targets `attempted`.
unfoldable pub failover :
    ℕ → (ℕ → Attempt) → ℕ → Text → SelectionDecision → List Text → Router → Router × Ending
unfolding router_record_outcome is_eligible_failover_status next_round
failover zero attempts n capability d attempted r = (r, out_of_fuel)
failover (suc fuel) attempts n capability d attempted r =
    let target = trim_space d.selected_target in
    let seen = target ∷ attempted in
    let a = attempts n in
    let r' = router_record_outcome d a r in
    let rest =
      next_round n (λ d' s. failover fuel attempts (suc n) capability d' seen s)
        (resolve_next a.readings d.virtual_model capability seen r') in
    if succeeded a || a.output_committed
    then (
      if succeeded a then record_preferred d.virtual_model capability target r' else r',
      answered n,
    )
    else if not (is_eligible_failover_status a.status a.error)
    then (r', answered n)
    else if a.context_done
    then (r', aborted n)
    else rest
