-- ===== src/Idempotency/Owners.antt =====
-- internal/control/idempotency.go: who owns an entry while its request runs.
use ya_router.Common.{
  ℕ, ◌+◌, ◌≤◌, Text, Bool, true, false, Bool-cases, Option, none, some, ◌≡◌, refl, arith, Dict,
  lookup, lookup-put, put-Distinct, Distinct, text_key, nat_key, =?_iff, ◌==◌, ==_iff, leb, length,
  not, inl, inr, if◌then◌else◌, branch,
}
use ya_router.Idempotency.{
  IdempotencyEntry, is_ready, cleanup, evict_oldest, cleaned, new_entry, begin_cleaned,
}
use ya_router.Idempotency.Steps.{Server, arrived}
use ya_router.Idempotency.Eviction.{
  cleanup-keeps, cleanup-Distinct, evict_oldest-keeps, evict_oldest-Distinct,
}

abbrev pub is_pending : Option IdempotencyEntry → Bool
is_pending none = false
is_pending (some e) = not e.ready

abbrev pub is_there : Option IdempotencyEntry → Bool
is_there none = false
is_there (some e) = true

pub record IsOwned (v : Server) : Type 0 where
  pub distinct : Distinct v.store.entries
  pub current : (p : ℕ) (k : Text) → lookup p v.owners ≡ some k → lookup k v.store.entries ≡ some p
  pub pending :
      (p : ℕ) (k : Text) → lookup p v.owners ≡ some k → is_pending (lookup p v.store.heap) ≡ true
  pub stored : (p : ℕ) → is_there (lookup p v.store.heap) ≡ true → p ≤ v.store.next_entry

pub pending_unready : (o : Option IdempotencyEntry) → is_pending o ≡ true → is_ready o ≡ false
pending_unready none h = refl
pending_unready (some e) h = ground (arith, h)

pub pending_there : (o : Option IdempotencyEntry) → is_pending o ≡ true → is_there o ≡ true
pending_there none h = h
pending_there (some e) h = refl

-- An owner's entry survives the cleaning, and the eviction.
pub cleaned_current :
    (now : ℕ) (v : Server) (p : ℕ) (k : Text)
    → IsOwned v
    → lookup p v.owners ≡ some k
    → lookup k (cleanup now v.store v.store.entries) ≡ some p
cleaned_current now v p k w owner =
    cleanup-keeps now v.store k p v.store.entries (pending_unready _ (w.pending p k owner))
      (w.current p k owner)

abbrev kept_entries : ℕ → Server → Dict Text ℕ
kept_entries now v =
    if leb (cleaned now v.store).max_entries (length (cleaned now v.store).entries)
    then evict_oldest (cleaned now v.store) (cleaned now v.store).entries
    else (cleaned now v.store).entries

kept_current :
    (now : ℕ) (v : Server) (p : ℕ) (k : Text)
    → IsOwned v
    → lookup p v.owners ≡ some k
    → lookup k (kept_entries now v) ≡ some p
kept_current now v p k w owner =
    branch (λ z. lookup k z ≡ some p)
      (leb v.store.max_entries (length (cleanup now v.store v.store.entries)))
      (evict_oldest-keeps (cleaned now v.store) k p (cleanup now v.store v.store.entries)
        (cleanup-Distinct now v.store v.store.entries w.distinct)
        (pending_unready _ (w.pending p k owner)) (cleaned_current now v p k w owner))
      (cleaned_current now v p k w owner)

kept-Distinct : (now : ℕ) (v : Server) → IsOwned v → Distinct (kept_entries now v)
kept-Distinct now v w =
    let d = cleanup-Distinct now v.store v.store.entries w.distinct in
    branch Distinct (leb v.store.max_entries (length (cleanup now v.store v.store.entries)))
      (evict_oldest-Distinct (cleaned now v.store) _ d) d

pub arrived-IsOwned :
    (key digest : Text) (now made : ℕ) (v : Server) (o : Option ℕ)
    → lookup key (cleanup now v.store v.store.entries) ≡ o
    → IsOwned v
    → IsOwned (arrived key v (begin_cleaned key digest made (cleaned now v.store) o))
arrived-IsOwned key digest now made v (some q) found w = record {
  distinct = cleanup-Distinct now v.store v.store.entries w.distinct;
  current = λ p k owner. cleaned_current now v p k w owner;
  pending = w.pending;
  stored = w.stored;
}
arrived-IsOwned key digest now made v none found w =
    let new = v.store.next_entry + 1 in
    record {
      distinct = put-Distinct key new (kept_entries now v) (kept-Distinct now v w);
      current = λ p k owner. elim (Bool-cases (new == p)) [
        | inl same ↦ ground (
          arith,
          same,
          owner,
          ==_iff new p,
          lookup-put new p key v.owners,
          lookup-put key k new (kept_entries now v),
          =?_iff key k,
        )
        | inr other ↦
            let before : lookup p v.owners ≡ some k =
              ground (arith, other, owner, lookup-put new p key v.owners) in
            ground (
              arith,
              found,
              kept_current now v p k w before,
              cleaned_current now v p k w before,
              lookup-put key k new (kept_entries now v),
              =?_iff key k,
            )
      ];
      pending = λ p k owner. elim (Bool-cases (new == p)) [
        | inl same ↦ ground (arith, same, lookup-put new p (new_entry digest made) v.store.heap)
        | inr other ↦ ground (
          arith,
          other,
          owner,
          w.pending p k,
          lookup-put new p key v.owners,
          lookup-put new p (new_entry digest made) v.store.heap,
        )
      ];
      stored = λ p there. ground (
        arith,
        there,
        w.stored p,
        ==_iff new p,
        lookup-put new p (new_entry digest made) v.store.heap,
      );
    }
