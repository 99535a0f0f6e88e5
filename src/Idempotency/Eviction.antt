-- ===== src/Idempotency/Eviction.antt =====
-- internal/control/idempotency.go: cleaning and evicting leave the entries that are not ready.
use ya_router.Common.{
  ℕ, Text, Bool, true, false, Bool-cases, Option, none, some, [], ◌∷◌, ◌≡◌, refl, sym, subst, arith,
  Dict, lookup, Distinct, remove-Distinct, lookup-remove, text_key, nat_key, ◌=?◌, =?_iff, is_empty,
  ltb, not, ◌&&◌, ◌||◌, inl, inr, if◌then◌else◌, branch, branch_by,
}
use ya_router.Idempotency.{
  IdempotencyStore, IdempotencyEntry, is_ready, is_stale, created, cleanup, oldest_ready,
  evict_oldest,
}

pending_not_stale :
    (ttl now : ℕ) (o : Option IdempotencyEntry) → is_ready o ≡ false → is_stale ttl now o ≡ false
pending_not_stale ttl now none waits = refl
pending_not_stale ttl now (some e) waits = ground (arith, waits)

tail_found :
    (k : Text) (p : ℕ) (j : Text) (q : ℕ) (es : Dict Text ℕ)
    → (j =? k) ≡ false
    → lookup k ((j, q) ∷ es) ≡ some p
    → lookup k es ≡ some p
unfolding lookup
tail_found k p j q es other found = ground (arith, other, found)

-- A kept first entry is still the first, and a dropped one with another key does not matter.
kept_tail :
    (now : ℕ) (s : IdempotencyStore) (k : Text) (p : ℕ) (j : Text) (q : ℕ) (es : Dict Text ℕ)
    → (j =? k) ≡ false
    → lookup k (cleanup now s es) ≡ some p
    → lookup k (cleanup now s ((j, q) ∷ es)) ≡ some p
unfolding cleanup lookup
kept_tail now s k p j q es other h = ground (arith, other, h)

kept_head :
    (now : ℕ) (s : IdempotencyStore) (k : Text) (p : ℕ) (j : Text) (q : ℕ) (es : Dict Text ℕ)
    → is_ready (lookup p s.heap) ≡ false
    → (j =? k) ≡ true
    → lookup k ((j, q) ∷ es) ≡ some p
    → lookup k (cleanup now s ((j, q) ∷ es)) ≡ some p
unfolding cleanup lookup
kept_head now s k p j q es waits same found =
    let here : q ≡ p = ground (arith, same, found) in
    ground (
      arith,
      same,
      here,
      pending_not_stale s.ttl now (lookup q s.heap)
          (subst (λ x. is_ready (lookup x s.heap) ≡ false) (sym here) waits),
    )

pub cleanup-keeps :
    (now : ℕ) (s : IdempotencyStore) (k : Text) (p : ℕ) (es : Dict Text ℕ)
    → is_ready (lookup p s.heap) ≡ false
    → lookup k es ≡ some p
    → lookup k (cleanup now s es) ≡ some p
unfolding cleanup
cleanup-keeps now s k p [] waits found = found
cleanup-keeps now s k p ((j, q) ∷ es) waits found = elim (Bool-cases (j =? k)) [
  | inl same ↦ kept_head now s k p j q es waits same found
  | inr other ↦
      kept_tail now s k p j q es other
        (cleanup-keeps now s k p es waits (tail_found k p j q es other found))
]

pub cleanup-none :
    (now : ℕ) (s : IdempotencyStore) (k : Text) (es : Dict Text ℕ)
    → lookup k es ≡ none
    → lookup k (cleanup now s es) ≡ none
unfolding cleanup lookup
cleanup-none now s k [] absent = absent
cleanup-none now s k ((j, q) ∷ es) absent = ground (arith, absent, cleanup-none now s k es)

pub cleanup-Distinct :
    (now : ℕ) (s : IdempotencyStore) (es : Dict Text ℕ) → Distinct es → Distinct (cleanup now s es)
unfolding cleanup
cleanup-Distinct now s [] d = d
cleanup-Distinct now s ((j, q) ∷ es) d =
    branch Distinct (is_stale s.ttl now (lookup q s.heap)) (cleanup-Distinct now s es d.1)
      (cleanup-none now s j es d.0, cleanup-Distinct now s es d.1)

abbrev avoids : Text → Text × ℕ → Bool
avoids k found = is_empty found.0 || not (found.0 =? k)

-- The entry under a key is not ready, if there is one.
abbrev IsPending : IdempotencyStore → Text → Dict Text ℕ → Type 0
IsPending s k es = (p : ℕ) → lookup k es ≡ some p → is_ready (lookup p s.heap) ≡ false

IsPending-tail :
    (s : IdempotencyStore) (k j : Text) (q : ℕ) (es : Dict Text ℕ)
    → lookup j es ≡ none
    → IsPending s k ((j, q) ∷ es)
    → IsPending s k es
unfolding lookup
IsPending-tail s k j q es absent waits p found = waits p (ground (arith, absent, found, =?_iff j k))

avoids_next :
    (s : IdempotencyStore) (k j : Text) (q : ℕ) (es : Dict Text ℕ) (found : Text × ℕ)
    → IsPending s k ((j, q) ∷ es)
    → avoids k found ≡ true
    → avoids k (
        if is_ready (lookup q s.heap)
          && (is_empty found.0 || ltb (created (lookup q s.heap)) found.1)
        then (j, created (lookup q s.heap))
        else found)
      ≡ true
unfolding lookup
avoids_next s k j q es found waits h =
    branch_by (λ z. avoids k z ≡ true)
      (is_ready (lookup q s.heap) && (is_empty found.0 || ltb (created (lookup q s.heap)) found.1))
      (λ ready.
        ground (arith, ready, λ (e : (if j =? k then some q else lookup k es) ≡ some q). waits q e))
      (λ other. h)

some_same :
    (p q : ℕ) (k : Text) (es : Dict Text ℕ) → lookup k es ≡ some p → lookup k es ≡ some q → p ≡ q
some_same p q k es found e = ground (arith, found, e)

oldest_ready-avoids :
    (s : IdempotencyStore) (k : Text) (es : Dict Text ℕ) (found : Text × ℕ)
    → Distinct es
    → IsPending s k es
    → avoids k found ≡ true
    → avoids k (oldest_ready s es found) ≡ true
unfolding oldest_ready
oldest_ready-avoids s k [] found d waits h = h
oldest_ready-avoids s k ((j, q) ∷ es) found d waits h =
    oldest_ready-avoids s k es _ d.1 (IsPending-tail s k j q es d.0 waits)
      (avoids_next s k j q es found waits h)

pub evict_oldest-keeps :
    (s : IdempotencyStore) (k : Text) (p : ℕ) (es : Dict Text ℕ)
    → Distinct es
    → is_ready (lookup p s.heap) ≡ false
    → lookup k es ≡ some p
    → lookup k (evict_oldest s es) ≡ some p
unfolding evict_oldest
evict_oldest-keeps s k p es d waits found =
    let oldest = oldest_ready s es ([], 0) in
    let other =
      oldest_ready-avoids s k es ([], 0) d
        (λ q e. subst (λ x. is_ready (lookup x s.heap) ≡ false) (some_same p q k es found e) waits)
        refl in
    branch_by (λ z. lookup k z ≡ some p) (is_empty oldest.0) (λ nothing. found)
      (λ something. ground (arith, something, other, found, lookup-remove oldest.0 k es))

pub evict_oldest-Distinct :
    (s : IdempotencyStore) (es : Dict Text ℕ) → Distinct es → Distinct (evict_oldest s es)
unfolding evict_oldest
evict_oldest-Distinct s es d =
    let oldest = oldest_ready s es ([], 0) in
    branch Distinct (is_empty oldest.0) d (remove-Distinct oldest.0 es d)
