-- ===== src/Common/Lists.antt =====
-- Lists measured by native numbers, and searched by a Boolean test.
use Prim.Native.Nat.{ℕ, zero, suc, ◌+◌, ◌-◌}
use mathlib.Core.Path.{◌≡◌, refl}
use mathlib.Core.Bool.{Bool, true, false, ◌&&◌, ◌||◌}
use mathlib.Core.List.{List, [], ◌∷◌, ◌++◌}
use native.Mathlib.Omega.{arith}
use ya_router.Common.Keys.{Eq, ◌=?◌}

module _ {ℓ} {A : Type ℓ} where
  abbrev pub length : List A → ℕ
  length [] = 0
  length (x ∷ xs) = suc (length xs)

  abbrev pub any : (A → Bool) → List A → Bool
  any p [] = false
  any p (x ∷ xs) = p x || any p xs

  abbrev pub all : (A → Bool) → List A → Bool
  all p [] = true
  all p (x ∷ xs) = p x && all p xs

  abbrev pub drop_list : ℕ → List A → List A
  drop_list zero xs = xs
  drop_list (suc n) [] = []
  drop_list (suc n) (x ∷ xs) = drop_list n xs

  abbrev pub All {κ} : (A → Type κ) → List A → Type κ
  All P [] = Unit
  All P (x ∷ xs) = P x × All P xs

  pub length-append : (xs ys : List A) → length (xs ++ ys) ≡ length xs + length ys
  length-append [] ys = omega arith
  length-append (x ∷ xs) ys = omega (arith, length-append xs ys)

  pub length-drop_list : (n : ℕ) (xs : List A) → length (drop_list n xs) ≡ length xs - n
  length-drop_list zero xs = omega arith
  length-drop_list (suc n) [] = omega arith
  length-drop_list (suc n) (x ∷ xs) = omega (arith, length-drop_list n xs)

  pub any-append : (p : A → Bool) (xs ys : List A) → any p (xs ++ ys) ≡ (any p xs || any p ys)
  any-append p [] ys = refl
  any-append p (x ∷ xs) ys = ground (arith, any-append p xs ys)

module _ {ℓ κ} {A : Type ℓ} (P : A → Type κ) where
  pub All-append : (xs ys : List A) → All P xs → All P ys → All P (xs ++ ys)
  All-append [] ys hs ks = ks
  All-append (x ∷ xs) ys hs ks = (hs.0, All-append xs ys hs.1 ks)

  pub All-drop_list : (n : ℕ) (xs : List A) → All P xs → All P (drop_list n xs)
  All-drop_list zero xs hs = hs
  All-drop_list (suc n) [] hs = hs
  All-drop_list (suc n) (x ∷ xs) hs = All-drop_list n xs hs.1

-- A set as the list of its elements.
abbrev pub contains {ℓ} : {A : Type ℓ} ⦃e : Eq A⦄ → A → List A → Bool
contains a xs = any (λ x. x =? a) xs
