-- ===== src/Idempotency/Once.antt =====
-- internal/control/idempotency.go: a mutation runs once, and its response is what is replayed.
use ya_router.Common.{
  ℕ, ◌+◌, Text, true, false, Bool-cases, Option, none, some, List, [], ◌∷◌, ◌≡◌, refl, sym, subst,
  arith, lookup, lookup-put, lookup-remove, text_key, nat_key, ==_iff, inl, inr, branch, branch_by,
}
use ya_router.Idempotency.{
  new_idempotency_store, IdempotencyStore, IdempotencyEntry, StoredResponse, cleanup, cleaned,
  new_entry, begin_cleaned, begin, differs, is_current, close_entry, complete,
}
use ya_router.Idempotency.Steps.{
  Server, Step, arrives, finishes, arrived, finished, finish, step, run,
}
use ya_router.Idempotency.Owners.{IsOwned, is_pending, arrived-IsOwned, cleaned_current}

-- A result that is no panic and keeps the invariant.
abbrev pub Goes : (Server → Type 0) → Option Server → Type 0
Goes P o = (v : Server) × ((o ≡ some v) × P v)

closed-Goes :
    (p : ℕ) (key : Text) (response : StoredResponse) (v : Server) (o : Option IdempotencyEntry)
    → lookup p v.store.heap ≡ o
    → is_pending o ≡ true
    → IsOwned v
    → Goes IsOwned (finished p v (close_entry p response v.store o))
closed-Goes p key response v none found waits w = absurd (ground (arith, waits))
closed-Goes p key response v (some e) found waits w =
    let closed : IdempotencyEntry = record e { ready = true; response = some response } in
    branch_by (λ z. Goes IsOwned (finished p v z)) e.ready
      (λ ready. absurd (ground (arith, ready, waits)))
      (λ unready. (
        _,
        (
          refl,
          record {
            distinct = w.distinct;
            current = λ q k owner. ground (arith, owner, w.current q k, lookup-remove p q v.owners);
            pending = λ q k owner. ground (
              arith,
              owner,
              w.pending q k,
              lookup-remove p q v.owners,
              lookup-put p q closed v.store.heap,
            );
            stored = λ q there.
                ground
                  (arith, there, found, w.stored q, ==_iff p q, lookup-put p q closed v.store.heap);
          },
        ),
      ))

finish-Goes :
    (p : ℕ) (response : StoredResponse) (v : Server) (o : Option Text)
    → lookup p v.owners ≡ o
    → IsOwned v
    → Goes IsOwned (finish p response v o)
unfolding complete
finish-Goes p response v none owner w = (v, (refl, w))
finish-Goes p response v (some key) owner w =
    branch_by (λ z. Goes IsOwned (finished p v z)) (is_current p (lookup key v.store.entries))
      (λ yes. closed-Goes p key response v (lookup p v.store.heap) refl (w.pending p key owner) w)
      (λ no. absurd (ground (arith, no, w.current p key owner, ==_iff p p)))

step-Goes : (x : Step) (v : Server) → IsOwned v → Goes IsOwned (step x v)
unfolding step begin
step-Goes (arrives key digest now made) v w = (
  _,
  (
    refl,
    arrived-IsOwned key digest now made v (lookup key (cleanup now v.store v.store.entries)) refl w,
  ),
)
step-Goes (finishes p response) v w = finish-Goes p response v (lookup p v.owners) refl w

next-Goes :
    (xs : List Step) (o : Option Server) (P : Server → Type 0)
    → Goes IsOwned o
    → ((v : Server) → IsOwned v → Goes P (run xs v))
    → Goes P (elim o [ none ↦ none | some w ↦ run xs w ])
next-Goes xs none P (v, (e, w)) rest = absurd (ground (arith, e))
next-Goes xs (some u) P (v, (e, w)) rest = ground (arith, e, rest v w)

run-Goes : (xs : List Step) (v : Server) → IsOwned v → Goes IsOwned (run xs v)
unfolding run
run-Goes [] v w = (v, (refl, w))
run-Goes (x ∷ xs) v w = next-Goes xs (step x v) IsOwned (step-Goes x v w) (λ u h. run-Goes xs u h)

abbrev pub new_server : IdempotencyStore → Server
new_server s = record { store = s; owners = [] }

new-IsOwned : (max_entries ttl : ℕ) → IsOwned (new_server (new_idempotency_store max_entries ttl))
unfolding new_idempotency_store lookup
new-IsOwned max_entries ttl = record {
  distinct = tt;
  current = λ p k e. absurd (ground (arith, e));
  pending = λ p k e. absurd (ground (arith, e));
  stored = λ p e. absurd (ground (arith, e));
}

-- Whoever comes with the key of a request that is still running gets its entry and does not own it.
abbrev pub Waits : Server → Type 0
Waits v =
    (p : ℕ) (key digest : Text) (now made : ℕ)
    → lookup p v.owners ≡ some key
    → (begin key digest now made v.store).1
      ≡ record { entry = p; owner = false; conflict = differs digest (lookup p v.store.heap) }

found_begun :
    (key digest : Text) (now : ℕ) (s : IdempotencyStore) (p : ℕ) (o : Option ℕ)
    → o ≡ some p
    → (begin_cleaned key digest now s o).1
      ≡ record { entry = p; owner = false; conflict = differs digest (lookup p s.heap) }
found_begun key digest now s p none h = absurd (ground (arith, h))
found_begun key digest now s p (some q) h = ground (arith, h)

IsOwned-Waits : (v : Server) → IsOwned v → Waits v
unfolding begin
IsOwned-Waits v w p key digest now made owner =
    found_begun key digest made (cleaned now v.store) p _ (cleaned_current now v p key w owner)

-- A mutation runs at most once at a time for each key. In any run of a new store, requests coming
-- and finishing in any order: the channel of an entry is never closed twice, which would panic; and
-- while the request that owns a key runs, each other request with that key gets its entry, does not
-- own it, and is refused if its digest differs, whatever the cleaning and the eviction remove.
pub runs_once :
    (max_entries ttl : ℕ) (xs : List Step)
    → Goes Waits (run xs (new_server (new_idempotency_store max_entries ttl)))
runs_once max_entries ttl xs =
    let end =
      run-Goes xs (new_server (new_idempotency_store max_entries ttl))
        (new-IsOwned max_entries ttl) in
    (end.0, (end.1.0, IsOwned-Waits end.0 end.1.1))

module _ (p : ℕ) (e : IdempotencyEntry) (ready : e.ready ≡ true) where
  abbrev Replays : Server → Type 0
  Replays v = IsOwned v × (lookup p v.store.heap ≡ some e)

  begun-keeps :
      (key digest : Text) (now made : ℕ) (v : Server) (o : Option ℕ)
      → Replays v
      → lookup p (arrived key v (begin_cleaned key digest made (cleaned now v.store) o)).store.heap
        ≡ some e
  begun-keeps key digest now made v (some q) h = h.1
  begun-keeps key digest now made v none h =
      let new = v.store.next_entry + 1 in
      ground (
        arith,
        h.1,
        h.0.stored p,
        ==_iff new p,
        lookup-put new p (new_entry digest made) v.store.heap,
      )

  close-keeps :
      (q : ℕ) (response : StoredResponse) (v w : Server) (o : Option IdempotencyEntry)
      → lookup q v.store.heap ≡ o
      → Replays v
      → finished q v (close_entry q response v.store o) ≡ some w
      → lookup p w.store.heap ≡ some e
  close-keeps q response v w none found h ends = ground (arith, ends, h.1)
  close-keeps q response v w (some f) found h ends = elim (Bool-cases f.ready) [
    | inl closed ↦ absurd (ground (arith, closed, ends))
    | inr unready ↦
        let closed : IdempotencyEntry = record f { ready = true; response = some response } in
        ground
          (arith, unready, ends, h.1, found, ready, ==_iff q p, lookup-put q p closed v.store.heap)
  ]

  finish-keeps :
      (q : ℕ) (response : StoredResponse) (v w : Server) (o : Option Text)
      → Replays v
      → finish q response v o ≡ some w
      → lookup p w.store.heap ≡ some e
  unfolding complete
  finish-keeps q response v w none h = λ ends. ground (arith, ends, h.1)
  finish-keeps q response v w (some key) h =
      branch (λ z. finished q v z ≡ some w → lookup p w.store.heap ≡ some e)
        (is_current q (lookup key v.store.entries))
        (close-keeps q response v w (lookup q v.store.heap) refl h)
        (λ ends. ground (arith, ends, h.1))

  step-keeps :
      (x : Step) (v w : Server) → Replays v → step x v ≡ some w → lookup p w.store.heap ≡ some e
  unfolding step begin
  step-keeps (arrives key digest now made) v w h = λ ends. ground (
    arith,
    ends,
    begun-keeps key digest now made v (lookup key (cleanup now v.store v.store.entries)) h,
  )
  step-keeps (finishes q response) v w h = finish-keeps q response v w (lookup q v.owners) h

  run-Replays : (xs : List Step) (v : Server) → Replays v → Goes Replays (run xs v)
  unfolding run
  run-Replays [] v h = (v, (refl, h))
  run-Replays (x ∷ xs) v h =
      let (w, (goes, owned)) = step-Goes x v h.0 in
      subst (λ o. Goes Replays (elim o [ none ↦ none | some w ↦ run xs w ])) (sym goes)
        (run-Replays xs w (owned, step-keeps x v w h goes))

abbrev pub Answers : ℕ → IdempotencyEntry → Server → Type 0
Answers p e v = lookup p v.store.heap ≡ some e

-- The response that is replayed for an entry never changes: once an entry has its response, in any
-- run of a new store, whatever comes after leaves the entry as it is, so that every request that
-- waits for it or comes later with it gets the same response, even when it was evicted.
pub response_kept :
    (max_entries ttl : ℕ) (xs ys : List Step) (p : ℕ) (e : IdempotencyEntry) (v : Server)
    → run xs (new_server (new_idempotency_store max_entries ttl)) ≡ some v
    → lookup p v.store.heap ≡ some e
    → e.ready ≡ true
    → Goes (Answers p e) (run ys v)
response_kept max_entries ttl xs ys p e v runs found ready =
    let (u, (same, owned)) =
      run-Goes xs (new_server (new_idempotency_store max_entries ttl))
        (new-IsOwned max_entries ttl) in
    let here : u ≡ v = ground (arith, same, runs) in
    let (w, (goes, kept)) = run-Replays p e ready ys v (subst IsOwned here owned, found) in
    (w, (goes, kept.1))
