-- ===== src/Common/Maps.antt =====
-- A Go map as an association list. Go iterates over a map in no fixed order: a loop over a map is
-- a recursion on the list, and the theorems hold for every list, so for every order.
use mathlib.Core.Path.{◌≡◌, refl, subst}
use mathlib.Core.Logic.{◌⊎◌, inl, inr}
use mathlib.Core.Bool.{true}
use mathlib.Core.Option.{Option, none, some}
use mathlib.Core.List.{List, [], ◌∷◌}
use native.Mathlib.Omega.{arith}
use ya_router.Common.Tests.{if◌then◌else◌, Bool-cases}
use ya_router.Common.Keys.{Eq, ◌=?◌, =?_iff}

abbrev pub Dict {ℓ κ} : Type ℓ → Type κ → Type (ℓ ⊔ κ)
Dict K V = List (K × V)

module _ {ℓ κ} {K : Type ℓ} {V : Type κ} ⦃e : Eq K⦄ where
  unfoldable pub lookup : K → Dict K V → Option V
  lookup k [] = none
  lookup k ((j, v) ∷ m) = if j =? k then some v else lookup k m

  unfoldable pub put : K → V → Dict K V → Dict K V
  put k v [] = (k, v) ∷ []
  put k v ((j, w) ∷ m) = if j =? k then (k, v) ∷ m else (j, w) ∷ put k v m

  unfoldable pub remove : K → Dict K V → Dict K V
  remove k [] = []
  remove k ((j, w) ∷ m) = let rest = remove k m in if j =? k then rest else (j, w) ∷ rest

  pub lookup-put :
      (k j : K) (v : V) (m : Dict K V)
      → lookup j (put k v m) ≡ (if k =? j then some v else lookup j m)
  unfolding lookup put
  lookup-put k j v [] = refl
  lookup-put k j v ((i, w) ∷ m) =
      ground (arith, =?_iff k j, =?_iff i k, =?_iff i j, lookup-put k j v m)

  pub lookup-put_self : (k : K) (v : V) (m : Dict K V) → lookup k (put k v m) ≡ some v
  lookup-put_self k v m = ground (arith, lookup-put k k v m, =?_iff k k)

  pub lookup-remove :
      (k j : K) (m : Dict K V) → lookup j (remove k m) ≡ (if k =? j then none else lookup j m)
  unfolding lookup remove
  lookup-remove k j [] = ground arith
  lookup-remove k j ((i, w) ∷ m) =
      ground (arith, =?_iff k j, =?_iff i k, =?_iff i j, lookup-remove k j m)

  -- No key stands twice.
  abbrev pub Distinct : Dict K V → Type κ
  Distinct [] = Unit
  Distinct ((k, v) ∷ m) = (lookup k m ≡ none) × Distinct m

  pub put-Distinct : (k : K) (v : V) (m : Dict K V) → Distinct m → Distinct (put k v m)
  unfolding lookup put
  put-Distinct k v [] d = (refl, d)
  put-Distinct k v ((j, w) ∷ m) d = elim (Bool-cases (j =? k)) [
    | inl same ↦ ground (arith, =?_iff j k)
    | inr other ↦
        rw other
          (ground (arith, =?_iff j k, =?_iff k j, lookup-put k j v m), put-Distinct k v m d.1)
  ]

  pub remove-Distinct : (k : K) (m : Dict K V) → Distinct m → Distinct (remove k m)
  unfolding lookup remove
  remove-Distinct k [] d = d
  remove-Distinct k ((j, w) ∷ m) d = elim (Bool-cases (j =? k)) [
    | inl same ↦ rw same (remove-Distinct k m d.1)
    | inr other ↦
        rw other
          (ground (arith, =?_iff j k, =?_iff k j, lookup-remove k j m), remove-Distinct k m d.1)
  ]

-- A predicate of every entry.
abbrev pub AllEntries {ℓ κ μ} : {K : Type ℓ} {V : Type κ} → (K → V → Type μ) → Dict K V → Type μ
AllEntries P [] = Unit
AllEntries P ((k, v) ∷ m) = P k v × AllEntries P m

module _ {ℓ κ μ} {K : Type ℓ} {V : Type κ} ⦃e : Eq K⦄ (P : K → V → Type μ) where
  pub put-AllEntries :
      (k : K) (v : V) (m : Dict K V) → P k v → AllEntries P m → AllEntries P (put k v m)
  unfolding put
  put-AllEntries k v [] h hs = (h, hs)
  put-AllEntries k v ((j, w) ∷ m) h hs = elim (Bool-cases (j =? k)) [
    | inl same ↦ rw same (h, hs.1)
    | inr other ↦ rw other (hs.0, put-AllEntries k v m h hs.1)
  ]

  pub remove-AllEntries : (k : K) (m : Dict K V) → AllEntries P m → AllEntries P (remove k m)
  unfolding remove
  remove-AllEntries k [] hs = hs
  remove-AllEntries k ((j, w) ∷ m) hs = elim (Bool-cases (j =? k)) [
    | inl same ↦ rw same (remove-AllEntries k m hs.1)
    | inr other ↦ rw other (hs.0, remove-AllEntries k m hs.1)
  ]

  first_value :
      (j : K) (w : V) (k : K) (v : V) (m : Dict K V)
      → lookup k ((j, w) ∷ m) ≡ some v
      → (j =? k) ≡ true
      → w ≡ v
  unfolding lookup
  first_value j w k v m l same = ground arith

  pub lookup-AllEntries :
      (k : K) (v : V) (m : Dict K V) → AllEntries P m → lookup k m ≡ some v → P k v
  unfolding lookup
  lookup-AllEntries k v [] hs l = absurd (ground arith)
  lookup-AllEntries k v ((j, w) ∷ m) hs l = elim (Bool-cases (j =? k)) [
    | inl same ↦
        subst (λ x. P x v) ((=?_iff j k).0 same) (subst (P j) (first_value j w k v m l same) hs.0)
    | inr other ↦ lookup-AllEntries k v m hs.1 (rw other at l)
  ]

-- The entry `v` stands in the map under `k`.
abbrev pub Holds : {K V : Type 0} → K → V → Dict K V → Type 0
Holds k v [] = ⊥
Holds k v ((j, w) ∷ m) = ((j ≡ k) × (w ≡ v)) ⊎ Holds k v m

pub Holds-remove :
    {K V : Type 0} ⦃e : Eq K⦄ (j k : K) (v : V) (m : Dict K V)
    → Holds k v (remove j m)
    → Holds k v m
unfolding remove
Holds-remove j k v [] h = h
Holds-remove j k v ((i, w) ∷ m) h = elim (Bool-cases (i =? j)) [
  | inl same ↦ inr (Holds-remove j k v m (rw same at h))
  | inr other ↦ elim (rw other at h) [
    | inl here ↦ inl here
    | inr there ↦ inr (Holds-remove j k v m there)
  ]
]

pub ruleset dict_laws = (lookup-put, lookup-remove)
