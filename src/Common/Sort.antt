-- ===== src/Common/Sort.antt =====
-- `sort.Slice`: an insertion sort by a strict order, and Go's order of strings. Where two elements
-- tie, Go leaves them in any order; the sorted list keeps that of the input.
use Prim.Native.Nat.{◌+◌}
use mathlib.Core.Path.{◌≡◌, refl, ◌∙◌}
use mathlib.Core.Bool.{Bool, true, false, ◌&&◌, ◌||◌}
use mathlib.Core.List.{List, [], ◌∷◌}
use native.Mathlib.Omega.{arith}
use ya_router.Common.Tests.{ltb, ◌==◌, if◌then◌else◌, Bool-cases}
use mathlib.Core.Logic.{inl, inr}
use mathlib.Core.Option.{Option, none, some}
use ya_router.Common.Keys.{Text, Eq, ◌=?◌, =?_iff}
use ya_router.Common.Lists.{length, any, All}

-- s < t
unfoldable pub text_less : Text → Text → Bool
text_less s [] = false
text_less [] (d ∷ t) = true
text_less (c ∷ s) (d ∷ t) = ltb c d || (c == d && text_less s t)

-- The first element with a key, and lists in which no key stands twice.
module _ {ℓ κ} {A : Type ℓ} {K : Type κ} ⦃e : Eq K⦄ (key : A → K) where
  abbrev pub find : K → List A → Option A
  find k [] = none
  find k (x ∷ xs) = if key x =? k then some x else find k xs

  abbrev pub DistinctKeys : List A → Type ℓ
  DistinctKeys [] = Unit
  DistinctKeys (x ∷ xs) = (find (key x) xs ≡ none) × DistinctKeys xs

module _ {ℓ} {A : Type ℓ} (less : A → A → Bool) where
  unfoldable pub insert_sorted : A → List A → List A
  insert_sorted x [] = x ∷ []
  insert_sorted x (y ∷ ys) =
      let rest = insert_sorted x ys in if less x y then x ∷ y ∷ ys else y ∷ rest

  unfoldable pub sort : List A → List A
  sort [] = []
  sort (x ∷ xs) = insert_sorted x (sort xs)

  length-insert_sorted : (x : A) (ys : List A) → length (insert_sorted x ys) ≡ length ys + 1
  unfolding insert_sorted
  length-insert_sorted x [] = omega arith
  length-insert_sorted x (y ∷ ys) = ground (arith, length-insert_sorted x ys)

  pub length-sort : (xs : List A) → length (sort xs) ≡ length xs
  unfolding sort
  length-sort [] = refl
  length-sort (x ∷ xs) = omega (arith, length-insert_sorted x (sort xs), length-sort xs)

  any-insert_sorted :
      (p : A → Bool) (x : A) (ys : List A) → any p (insert_sorted x ys) ≡ (p x || any p ys)
  unfolding insert_sorted
  any-insert_sorted p x [] = refl
  any-insert_sorted p x (y ∷ ys) = ground (arith, any-insert_sorted p x ys)

  pub any-sort : (p : A → Bool) (xs : List A) → any p (sort xs) ≡ any p xs
  unfolding sort
  any-sort p [] = refl
  any-sort p (x ∷ xs) = ground (arith, any-insert_sorted p x (sort xs), any-sort p xs)

  All-insert_sorted {κ} :
      (P : A → Type κ) (x : A) (ys : List A) → P x → All P ys → All P (insert_sorted x ys)
  unfolding insert_sorted
  All-insert_sorted P x [] h hs = (h, hs)
  All-insert_sorted P x (y ∷ ys) h hs = elim (Bool-cases (less x y)) [
    | inl first ↦ rw first (h, hs)
    | inr after ↦ rw after (hs.0, All-insert_sorted P x ys h hs.1)
  ]

  pub All-sort {κ} : (P : A → Type κ) (xs : List A) → All P xs → All P (sort xs)
  unfolding sort
  All-sort P [] hs = hs
  All-sort P (x ∷ xs) hs = All-insert_sorted P x (sort xs) hs.0 (All-sort P xs hs.1)

  -- Where no two elements have the same key, sorting leaves what a key finds.
  module _ {κ} {K : Type κ} ⦃e : Eq K⦄ (key : A → K) where
    find-insert_sorted :
        (k : K) (x : A) (ys : List A)
        → find key (key x) ys ≡ none
        → find key k (insert_sorted x ys) ≡ (if key x =? k then some x else find key k ys)
    unfolding insert_sorted
    find-insert_sorted k x [] h = refl
    find-insert_sorted k x (y ∷ ys) h = ground (
      arith,
      =?_iff (key x) k,
      =?_iff (key y) k,
      =?_iff (key y) (key x),
      find-insert_sorted k x ys,
    )

    pub find-sort :
        (k : K) (xs : List A) → DistinctKeys key xs → find key k (sort xs) ≡ find key k xs
    unfolding sort
    find-sort k [] d = refl
    find-sort k (x ∷ xs) d =
        ground
          (arith, find-insert_sorted k x (sort xs), find-sort k xs d.1, find-sort (key x) xs d.1)

    insert_sorted-DistinctKeys :
        (x : A) (ys : List A)
        → find key (key x) ys ≡ none
        → DistinctKeys key ys
        → DistinctKeys key (insert_sorted x ys)
    unfolding insert_sorted
    insert_sorted-DistinctKeys x [] h d = (refl, d)
    insert_sorted-DistinctKeys x (y ∷ ys) h d = elim (Bool-cases (less x y)) [
      | inl first ↦ rw first (h, d)
      | inr after ↦ rw after (
        ground (
          arith,
          find-insert_sorted (key y) x ys,
          =?_iff (key x) (key y),
          =?_iff (key y) (key x),
        ),
        insert_sorted-DistinctKeys x ys (ground (arith, h)) d.1,
      )
    ]

    pub sort-DistinctKeys : (xs : List A) → DistinctKeys key xs → DistinctKeys key (sort xs)
    unfolding sort
    sort-DistinctKeys [] d = d
    sort-DistinctKeys (x ∷ xs) d =
        insert_sorted-DistinctKeys x (sort xs) (find-sort (key x) xs d.1 ∙ d.0)
          (sort-DistinctKeys xs d.1)
