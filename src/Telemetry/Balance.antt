-- ===== src/Telemetry/Balance.antt =====
-- internal/telemetry: the counters agree with the requests that were begun.
use ya_router.Common.{
  ℕ, ◌+◌, ◌-◌, ◌%◌, ◌^◌, ◌≤◌, ◌≡◌, refl, sym, subst, arith, Text, true, false, Bool-cases, Option,
  none, some, Option-cases, List, [], ◌∷◌, Dict, lookup, lookup-put, nat_key, text_key, ==_iff,
  ◌=?◌, =?_iff, branch_by, inl, inr,
}
use ya_router.Telemetry.{
  InFlight, Outcome, Usage, Recorder, TargetState, target_key, state_or_new, on_state, begun,
  counted, add_usage, begin, finish_mark, finish_count, finish_pending,
}
use ya_router.Telemetry.Calls.{Call, begins, marks, counts, call, run, new_recorder}
use ya_router.Telemetry.Open.{is_some, target_of, open_on, open_on-put}

abbrev pub state_on : Text → Recorder → TargetState
state_on t r = state_or_new (lookup t r.targets)

-- What is true of the counters of a target that has `n` open handles.
pub record IsTotal (n : ℕ) (s : TargetState) : Type 0 where
  pub in_flight : s.in_flight ≡ n
  pub requests : s.requests ≡ (s.successes + s.errors + s.in_flight) % 2 ^ 64

pub record IsBalanced (r : Recorder) : Type 0 where
  pub total : (t : Text) → IsTotal (open_on t r.handles) (state_on t r)
  pub numbered : (l : ℕ) (h : InFlight) → lookup l r.handles ≡ some h → l ≤ r.next_handle
  pub marked :
      (l : ℕ) (h : InFlight)
      → lookup l r.handles ≡ some h
      → is_some h.pending ≡ true
      → h.done ≡ true

fresh_handle : (r : Recorder) → IsBalanced r → lookup (r.next_handle + 1) r.handles ≡ none
fresh_handle r v = elim (Option-cases (lookup (r.next_handle + 1) r.handles)) [
  | inl missing ↦ missing
  | inr (h, found) ↦ absurd (omega (arith, v.numbered (r.next_handle + 1) h found))
]

-- The counters of one target change, and those of the others stay.
IsTotal-on_state :
    (k t : Text) (f : TargetState → TargetState) (n : ℕ) (targets : Dict Text TargetState)
    → ((k =? t) ≡ true → IsTotal n (f (state_or_new (lookup k targets))))
    → ((k =? t) ≡ false → IsTotal n (state_or_new (lookup t targets)))
    → IsTotal n (state_or_new (lookup t (on_state k f targets)))
IsTotal-on_state k t f n targets same other =
    subst (λ o. IsTotal n (state_or_new o))
      (sym (lookup-put k t (f (state_or_new (lookup k targets))) targets))
      (elim (Bool-cases (k =? t)) [ inl e ↦ rw e (same e) | inr e ↦ rw e (other e) ])

begun-IsTotal : (n : ℕ) (s : TargetState) → IsTotal n s → IsTotal (n + 1) (begun s)
begun-IsTotal n s v = record {
  in_flight = omega (arith, v.in_flight);
  requests = omega (arith, v.requests);
}

begin-IsBalanced :
    (provider model : Text) (now : ℕ) (r : Recorder)
    → IsBalanced r
    → IsBalanced (begin provider model now r).0
unfolding begin
begin-IsBalanced provider model now r v =
    let k = target_key provider model in
    let h : InFlight = record {
      provider_id = provider;
      model = model;
      start = now;
      done = false;
      pending = none;
    } in
    let missing = fresh_handle r v in
    record {
      total = λ t.
          IsTotal-on_state k t begun _ r.targets
            (λ same.
              subst (λ n. IsTotal n (begun (state_on k r)))
                (ground
                  (arith, missing, same, =?_iff k t, open_on-put t (r.next_handle + 1) h r.handles))
                (begun-IsTotal (open_on k r.handles) (state_on k r) (v.total k)))
            (λ other.
              subst (λ n. IsTotal n (state_on t r))
                (ground (arith, missing, other, open_on-put t (r.next_handle + 1) h r.handles))
                (v.total t));
      numbered =
          λ l x e. ground (arith, v.numbered l x, e, lookup-put (r.next_handle + 1) l h r.handles);
      marked = λ l x e p.
          ground (arith, v.marked l x, e, p, lookup-put (r.next_handle + 1) l h r.handles);
    }

mark-IsBalanced :
    (l : ℕ) (outcome : Outcome) (r : Recorder) (o : Option InFlight)
    → lookup l r.handles ≡ o
    → IsBalanced r
    → IsBalanced (finish_mark l outcome r o)
unfolding finish_mark
mark-IsBalanced l outcome r none found v = v
mark-IsBalanced l outcome r (some h) found v =
    let marked_handle : InFlight = record h { done = true; pending = some outcome } in
    branch_by IsBalanced h.done (λ done. v)
      (λ open_yet. record {
        total = λ t.
            subst (λ n. IsTotal n (state_on t r))
              (ground (arith, found, open_yet, open_on-put t l marked_handle r.handles))
              (v.total t);
        numbered = λ j x e. ground (
          arith,
          v.numbered j x,
          v.numbered l h found,
          e,
          lookup-put l j marked_handle r.handles,
          ==_iff l j,
        );
        marked =
            λ j x e p. ground (arith, v.marked j x, e, p, lookup-put l j marked_handle r.handles);
      })

usage-IsTotal :
    (n : ℕ) (u : Option Usage) (s : TargetState) → IsTotal n s → IsTotal n (add_usage u s)
usage-IsTotal n none s v = record { in_flight = v.in_flight; requests = v.requests }
usage-IsTotal n (some u) s v = record { in_flight = v.in_flight; requests = v.requests }

counted-IsTotal :
    (n : ℕ) (outcome : Outcome) (latency : ℕ) (s : TargetState)
    → IsTotal (n + 1) s
    → IsTotal n (counted outcome latency s)
counted-IsTotal n outcome latency s v = record {
  in_flight = ground (arith, v.in_flight);
  requests = elim (Bool-cases outcome.success) [
    | inl ok ↦ ground (arith, ok, v.in_flight, v.requests)
    | inr failed ↦ ground (arith, failed, v.in_flight, v.requests)
  ];
}

pending-IsBalanced :
    (l : ℕ) (h : InFlight) (now : ℕ) (r : Recorder) (o : Option Outcome)
    → lookup l r.handles ≡ some h
    → h.pending ≡ o
    → IsBalanced r
    → IsBalanced (finish_pending l h now r o)
unfolding finish_pending
pending-IsBalanced l h now r none found pending v = v
pending-IsBalanced l h now r (some outcome) found pending v =
    let k = target_of h in
    let counted_handle : InFlight = record h { pending = none } in
    let done = v.marked l h found (ground (arith, pending)) in
    record {
      total = λ t.
          IsTotal-on_state k t (λ s. add_usage outcome.usage (counted outcome (now - h.start) s)) _
            r.targets
            (λ same. usage-IsTotal _ outcome.usage _ (
              counted-IsTotal _ outcome (now - h.start) (state_on k r) (
                subst (λ n. IsTotal n (state_on k r))
                  (ground (
                    arith,
                    found,
                    pending,
                    done,
                    same,
                    =?_iff k t,
                    open_on-put t l counted_handle r.handles,
                  ))
                  (v.total k))))
            (λ other.
              subst (λ n. IsTotal n (state_on t r))
                (ground (arith, found, other, open_on-put t l counted_handle r.handles))
                (v.total t));
      numbered = λ j x e. ground (
        arith,
        v.numbered j x,
        v.numbered l h found,
        e,
        lookup-put l j counted_handle r.handles,
        ==_iff l j,
      );
      marked =
          λ j x e p. ground (arith, v.marked j x, e, p, lookup-put l j counted_handle r.handles);
    }

count-IsBalanced :
    (l now : ℕ) (r : Recorder) (o : Option InFlight)
    → lookup l r.handles ≡ o
    → IsBalanced r
    → IsBalanced (finish_count l now r o)
unfolding finish_count
count-IsBalanced l now r none found v = v
count-IsBalanced l now r (some h) found v = pending-IsBalanced l h now r h.pending found refl v

call-IsBalanced : (x : Call) (r : Recorder) → IsBalanced r → IsBalanced (call x r)
unfolding call
call-IsBalanced (begins provider model now) r v = begin-IsBalanced provider model now r v
call-IsBalanced (marks l outcome) r v = mark-IsBalanced l outcome r _ refl v
call-IsBalanced (counts l now) r v = count-IsBalanced l now r _ refl v

run-IsBalanced : (xs : List Call) (r : Recorder) → IsBalanced r → IsBalanced (run xs r)
unfolding run
run-IsBalanced [] r v = v
run-IsBalanced (x ∷ xs) r v = run-IsBalanced xs (call x r) (call-IsBalanced x r v)

new-IsBalanced : IsBalanced new_recorder
unfolding lookup
new-IsBalanced = record {
  total = λ t. record { in_flight = refl; requests = refl };
  numbered = λ l h e. absurd (ground (arith, e));
  marked = λ l h e p. absurd (ground (arith, e));
}

-- The counters balance at any time, whatever goroutines begin and finish requests and in whatever
-- order their critical sections come: the requests in flight of a target are its handles that are
-- not counted yet, and its requests are its successes, its errors and those in flight (in 64 bits).
pub telemetry_balances :
    (xs : List Call) (t : Text)
    → ((state_on t (run xs new_recorder)).in_flight ≡ open_on t (run xs new_recorder).handles)
      × ((state_on t (run xs new_recorder)).requests
          ≡ ((state_on t (run xs new_recorder)).successes
              + (state_on t (run xs new_recorder)).errors
              + (state_on t (run xs new_recorder)).in_flight)
            % 2 ^ 64)
telemetry_balances xs t =
    let total = (run-IsBalanced xs new_recorder new-IsBalanced).total t in
    (total.in_flight, total.requests)
