-- ===== src/Dispatch/Ends.antt =====
-- src/proxy.go: the failover loop ends, after at most one attempt for each configured target.
use ya_router.Common.{
  branch, ℕ, zero, suc, ◌<◌, ◌≡◌, refl, subst, arith, Text, Bool, true, false, Option, none, some,
  List, [], ◌∷◌, lookup, text_key, =?_iff, length, trim_space, not, ◌||◌,
}
use ya_router.Config.{VirtualModel}
use ya_router.Routing.Decision.{SelectionDecision}
use ya_router.Routing.Router.{Router, Resolution, resolved, failed, resolve_next}
use ya_router.Routing.Router.Progress.{is_fresh, IsFresh, resolve_next-IsFresh}
use ya_router.Dispatch.{
  Attempt, Ending, no_selection, out_of_fuel, is_eligible_failover_status, succeeded,
  router_record_outcome, next_selection, next_round, failover,
}
use ya_router.Dispatch.Left.{left, left-le, left-shrinks}
use ya_router.Dispatch.Kept.{names, Names, resolve_found-Names, routing-resolve_found}

abbrev pub is_ended : Ending → Bool
is_ended no_selection = false
is_ended out_of_fuel = false
is_ended _ = true

next_selection-ends :
    (round : SelectionDecision → Router → Router × Ending) (r : Router)
    (o : Option SelectionDecision) (vm : Option VirtualModel) (v : Text) (ex : List Text)
    → names v o ≡ true
    → is_fresh vm ex o ≡ true
    → ((d : SelectionDecision)
        → names v (some d) ≡ true
        → is_fresh vm ex (some d) ≡ true
        → is_ended (round d r).1 ≡ true)
    → is_ended (next_selection round r o).1 ≡ true
next_selection-ends round r none vm v ex h k ends = absurd (ground arith)
next_selection-ends round r (some d) vm v ex h k ends = ends d h k

next_round-ends :
    (n : ℕ) (round : SelectionDecision → Router → Router × Ending) (r : Router) (x : Resolution)
    (vm : Option VirtualModel) (v : Text) (ex : List Text)
    → Names v x
    → IsFresh vm ex x
    → ((d : SelectionDecision)
        → names v (some d) ≡ true
        → is_fresh vm ex (some d) ≡ true
        → is_ended (round d r).1 ≡ true)
    → is_ended (next_round n round (r, x)).1 ≡ true
unfolding next_round
next_round-ends n round r (failed e) vm v ex h k ends = refl
next_round-ends n round r (resolved res) vm v ex h k ends =
    next_selection-ends round r res.selection vm v ex h k ends

fresh-shrinks :
    (vm : VirtualModel) (ex : List Text) (d : SelectionDecision) (fuel : ℕ)
    → is_fresh (some vm) ex (some d) ≡ true
    → left vm.targets ex < suc fuel
    → left vm.targets (trim_space d.selected_target ∷ ex) < fuel
fresh-shrinks vm ex d fuel fresh h = omega (
  arith,
  h,
  left-shrinks vm.targets ex d.selected_target (ground (arith, fresh)) (ground (arith, fresh)),
)

same_vm :
    (d d' : SelectionDecision) (r s : Router) (vm : VirtualModel)
    → names d.virtual_model (some d') ≡ true
    → s.routing ≡ r.routing
    → lookup d.virtual_model r.routing.virtual_models ≡ some vm
    → lookup d'.virtual_model s.routing.virtual_models ≡ some vm
same_vm d d' r s vm h k l = ground (arith, =?_iff d'.virtual_model d.virtual_model, k, l)

-- From any decision for a configured virtual model, the loop ends, and no route in it lacks a
-- selection, if its fuel is more than the number of targets that are left.
failover_ends_within :
    (fuel : ℕ) (attempts : ℕ → Attempt) (n : ℕ) (c : Text) (d : SelectionDecision)
    (attempted : List Text) (r : Router) (vm : VirtualModel)
    → lookup d.virtual_model r.routing.virtual_models ≡ some vm
    → left vm.targets (trim_space d.selected_target ∷ attempted) < fuel
    → is_ended (failover fuel attempts n c d attempted r).1 ≡ true
unfolding failover router_record_outcome resolve_next
failover_ends_within zero attempts n c d attempted r vm found h = absurd (omega (arith, h))
failover_ends_within (suc fuel) attempts n c d attempted r vm found h =
    let a = attempts n in
    let seen = trim_space d.selected_target ∷ attempted in
    let r' = router_record_outcome d a r in
    let next = resolve_next a.readings d.virtual_model c seen r' in
    branch (λ (z : Router × Ending). is_ended z.1 ≡ true) (succeeded a || a.output_committed) refl
      (branch (λ (z : Router × Ending). is_ended z.1 ≡ true)
        (not (is_eligible_failover_status a.status a.error)) refl
        (branch (λ (z : Router × Ending). is_ended z.1 ≡ true) a.context_done refl
          (next_round-ends n (λ d' s. failover fuel attempts (suc n) c d' seen s) next.0 next.1
            (some vm) d.virtual_model seen
            (resolve_found-Names a.readings d.virtual_model c seen r' _)
            (subst (λ o. IsFresh o seen next.1) found
              (resolve_next-IsFresh a.readings d.virtual_model c seen r'))
            (λ d' named fresh.
              failover_ends_within fuel attempts (suc n) c d' seen next.0 vm
                (same_vm d d' r next.0 vm named
                  (routing-resolve_found a.readings d.virtual_model c seen r' _) found)
                (fresh-shrinks vm seen d' fuel fresh h)))))

-- The failover loop of a request to a configured virtual model ends, whatever the attempts come
-- to, with fuel for one attempt more than the virtual model has targets; and it never meets a route
-- with no selection.
pub failover_ends :
    (attempts : ℕ → Attempt) (c : Text) (d : SelectionDecision) (r : Router) (vm : VirtualModel)
    → lookup d.virtual_model r.routing.virtual_models ≡ some vm
    → is_ended (failover (suc (length vm.targets)) attempts 1 c d [] r).1 ≡ true
failover_ends attempts c d r vm found =
    failover_ends_within (suc (length vm.targets)) attempts 1 c d [] r vm found
      (omega (arith, left-le vm.targets (trim_space d.selected_target ∷ [])))
