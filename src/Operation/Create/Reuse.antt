-- ===== src/Operation/Create/Reuse.antt =====
-- internal/operation/store.go: the operation that `Create` finds for an idempotency key.
use ya_router.Common.{
  ℕ, Text, Bool-cases, false, some, List, [], ◌∷◌, Dict, Holds, Holds-remove, remove, text_key, ◌≡◌,
  refl, arith, branch, inl, inr, leb, length, is_empty, ◌=?◌, =?_iff, sym,
}
use ya_router.Provider.{Time}
use ya_router.Operation.Types.{Options, Record, CreateRequest}
use ya_router.Operation.Store.{Entry, Store, is_stale, prune_stale, prune_oldest, pruned}
use ya_router.Operation.Create.{existing_of, find_existing}

-- The entry `e` stood in the operations `old` under `k` and stands in `new`, for the
-- idempotency hash `wanted`, the request and with the record `r`.
pub record IsReused (request : CreateRequest) (wanted : Text) (r : Record)
    (old new : Dict Text Entry) (k : Text) (e : Entry) : Type 0 where
  pub before : Holds k e old
  pub after : Holds k e new
  pub contents : e.contents ≡ r
  pub keyed : is_empty wanted ≡ false
  pub hash : e.idempotency_hash ≡ wanted
  pub digest : e.request_digest ≡ request.request_digest

abbrev pub WasThere : CreateRequest → Text → Record → Store → Store → Type 0
WasThere request hash r s t =
    (k : Text) × ((e : Entry) × IsReused request hash r s.operations t.operations k e)

Holds-prune_stale :
    (retention : ℕ) (now : Time) (k : Text) (e : Entry) (m : Dict Text Entry)
    → Holds k e (prune_stale retention now m)
    → Holds k e m
unfolding prune_stale
Holds-prune_stale retention now k e [] h = h
Holds-prune_stale retention now k e ((j, f) ∷ m) h = elim (Bool-cases (is_stale retention now f)) [
  | inl stale ↦ inr (Holds-prune_stale retention now k e m (rw stale at h))
  | inr kept ↦ elim (rw kept at h) [
    | inl here ↦ inl here
    | inr there ↦ inr (Holds-prune_stale retention now k e m there)
  ]
]

Holds-prune_oldest :
    (n : ℕ) (k : Text) (e : Entry) (cs : List (Text × Time)) (m : Dict Text Entry)
    → Holds k e (prune_oldest n cs m)
    → Holds k e m
unfolding prune_oldest
Holds-prune_oldest n k e [] m = λ h. h
Holds-prune_oldest n k e ((j, t) ∷ cs) m =
    branch (λ (z : Dict Text Entry). Holds k e z → Holds k e m) (leb (length m) n) (λ h. h)
      (λ h. Holds-remove j k e m (Holds-prune_oldest n k e cs (remove j m) h))

pub Holds-pruned :
    (options : Options) (now : Time) (k : Text) (e : Entry) (m : Dict Text Entry)
    → Holds k e (pruned options now m)
    → Holds k e m
unfolding pruned
Holds-pruned options now k e m =
    branch (λ (z : Dict Text Entry). Holds k e z → Holds k e m)
      (leb (length (prune_stale options.retention now m)) options.max_operations)
      (λ h. Holds-prune_stale options.retention now k e m h)
      (λ h.
        Holds-prune_stale options.retention now k e m
          (Holds-prune_oldest options.max_operations k e _ _ h))

-- Where the loop of `Create` finds an entry.
abbrev pub IsFound : Text → Entry → Dict Text Entry → Type 0
IsFound hash e m =
    (k : Text) × (Holds k e m × ((e.idempotency_hash ≡ hash) × (is_empty hash ≡ false)))

found-Holds :
    (hash : Text) (e : Entry) (m : Dict Text Entry)
    → find_existing hash m ≡ some e
    → (k : Text) × (Holds k e m × (e.idempotency_hash ≡ hash))
unfolding find_existing
found-Holds hash e [] h = absurd (ground (arith, h))
found-Holds hash e ((k, f) ∷ m) h = elim (Bool-cases (f.idempotency_hash =? hash)) [
  | inl same ↦
      let is : f ≡ e = ground (arith, same, h) in
      (k, (inl (refl, is), rw (sym is) ((=?_iff f.idempotency_hash hash).0 same)))
  | inr other ↦
      let rest = found-Holds hash e m (rw other at h) in (rest.0, (inr rest.1.0, rest.1.1))
]

pub existing-IsFound :
    (hash : Text) (e : Entry) (m : Dict Text Entry) → existing_of hash m ≡ some e → IsFound hash e m
existing-IsFound hash e m h = elim (Bool-cases (is_empty hash)) [
  | inl blank ↦ absurd (ground (arith, blank, h))
  | inr keyed ↦
      let found = found-Holds hash e m (rw keyed at h) in (found.0, (found.1.0, (found.1.1, keyed)))
]
