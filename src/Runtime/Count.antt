-- ===== src/Runtime/Count.antt =====
-- How many unreleased leases hold a snapshot.
use ya_router.Common.{
  ℕ, ◌+◌, ◌≤◌, ◌≡◌, arith, Option, none, some, [], ◌∷◌, Dict, lookup, put, nat_key, ◌==◌, not, ◌&&◌,
  if◌then◌else◌,
}
use ya_router.Runtime.{Lease}

abbrev pub weight : ℕ → Lease → ℕ
weight g x = if not x.released && x.snapshot == g then 1 else 0

abbrev pub weight_of : ℕ → Option Lease → ℕ
weight_of g none = 0
weight_of g (some x) = weight g x

abbrev pub held : ℕ → Dict ℕ Lease → ℕ
held g [] = 0
held g ((l, x) ∷ m) = weight g x + held g m

pub held-put :
    (g l : ℕ) (x : Lease) (m : Dict ℕ Lease)
    → held g (put l x m) + weight_of g (lookup l m) ≡ held g m + weight g x
unfolding lookup put
held-put g l x [] = ground arith
held-put g l x ((k, y) ∷ m) = ground (arith, held-put g l x m)

pub weight-le-held : (g l : ℕ) (m : Dict ℕ Lease) → weight_of g (lookup l m) ≤ held g m
unfolding lookup
weight-le-held g l [] = ground arith
weight-le-held g l ((k, y) ∷ m) = ground (arith, weight-le-held g l m)
