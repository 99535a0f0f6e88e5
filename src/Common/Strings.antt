-- ===== src/Common/Strings.antt =====
-- What the program uses of Go's `strings`, over ASCII bytes: TrimSpace, ToLower, HasPrefix.
use Prim.Native.Nat.{ℕ, zero, suc, ◌+◌}
use Prim.Native.Char.{code}
use Prim.Native.String.{String}
use mathlib.Core.Path.{◌≡◌, refl, ap, ◌∙◌}
use mathlib.Core.Bool.{Bool, true, false, ◌&&◌, ◌||◌}
use mathlib.Core.List.{List, [], ◌∷◌, ◌++◌}
use native.Mathlib.Omega.{arith}
use ya_router.Common.Tests.{leb, ◌==◌, if◌then◌else◌}
use ya_router.Common.Keys.{Text}

-- The bytes of a literal. `String` has its own `[]` and `∷`.
abbrev pub codes : String → Text
codes String.[] = []
codes (String.◌∷◌ c s) = code c ∷ codes s

abbrev pub is_empty {ℓ} : {A : Type ℓ} → List A → Bool
is_empty [] = true
is_empty (_ ∷ _) = false

-- tab, newline, vertical tab, form feed, carriage return, space
abbrev pub is_space : ℕ → Bool
is_space c = (leb 9 c && leb c 13) || c == 32

unfoldable pub trim_left : Text → Text
trim_left [] = []
trim_left (c ∷ s) = let rest = trim_left s in if is_space c then rest else c ∷ s

unfoldable pub trim_right : Text → Text
trim_right [] = []
trim_right (c ∷ s) = let rest = trim_right s in if is_empty rest && is_space c then [] else c ∷ rest

unfoldable pub trim_space : Text → Text
unfolding trim_left trim_right
trim_space s = trim_right (trim_left s)

abbrev pub lower_byte : ℕ → ℕ
lower_byte c = if leb b'A' c && leb c b'Z' then c + 32 else c

unfoldable pub to_lower : Text → Text
to_lower [] = []
to_lower (c ∷ s) = lower_byte c ∷ to_lower s

abbrev pub has_prefix : Text → Text → Bool
has_prefix s [] = true
has_prefix [] (d ∷ p) = false
has_prefix (c ∷ s) (d ∷ p) = c == d && has_prefix s p

-- s[n:]
abbrev pub drop : ℕ → Text → Text
drop zero s = s
drop (suc n) [] = []
drop (suc n) (c ∷ s) = drop n s

trim_right_idem : (s : Text) → trim_right (trim_right s) ≡ trim_right s
unfolding trim_right
trim_right_idem [] = refl
trim_right_idem (c ∷ s) = ground (arith, trim_right_idem s)

trim_left_idem : (s : Text) → trim_left (trim_left s) ≡ trim_left s
unfolding trim_left
trim_left_idem [] = refl
trim_left_idem (c ∷ s) = ground (arith, trim_left_idem s)

trim_commute : (s : Text) → trim_left (trim_right s) ≡ trim_right (trim_left s)
unfolding trim_left trim_right
trim_commute [] = refl
trim_commute (c ∷ s) = ground (arith, trim_commute s)

pub trim_space_idem : (s : Text) → trim_space (trim_space s) ≡ trim_space s
unfolding trim_space
trim_space_idem s =
    ap trim_right (trim_commute (trim_left s) ∙ ap trim_right (trim_left_idem s))
    ∙ trim_right_idem (trim_left s)

lower_space : (c : ℕ) → is_space (lower_byte c) ≡ is_space c
lower_space c = ground arith

to_lower-trim_left : (s : Text) → trim_left (to_lower s) ≡ to_lower (trim_left s)
unfolding trim_left to_lower
to_lower-trim_left [] = refl
to_lower-trim_left (c ∷ s) = rw (lower_space c) (ground (arith, to_lower-trim_left s))

to_lower-trim_right : (s : Text) → trim_right (to_lower s) ≡ to_lower (trim_right s)
unfolding trim_right to_lower
to_lower-trim_right [] = refl
to_lower-trim_right (c ∷ s) = rw (lower_space c) (ground (arith, to_lower-trim_right s))

to_lower_idem : (s : Text) → to_lower (to_lower s) ≡ to_lower s
unfolding to_lower
to_lower_idem [] = refl
to_lower_idem (c ∷ s) = ground (arith, to_lower_idem s)

pub to_lower-trim_space : (s : Text) → trim_space (to_lower s) ≡ to_lower (trim_space s)
unfolding trim_space
to_lower-trim_space s = ap trim_right (to_lower-trim_left s) ∙ to_lower-trim_right (trim_left s)

-- Lower case of the trimmed text is a normal form.
pub normal_idem :
    (s : Text) → to_lower (trim_space (to_lower (trim_space s))) ≡ to_lower (trim_space s)
normal_idem s =
    ap to_lower (to_lower-trim_space (trim_space s) ∙ ap to_lower (trim_space_idem s))
    ∙ to_lower_idem (trim_space s)

pub drop-has_prefix : (p s : Text) → has_prefix (p ++ s) p ≡ true
drop-has_prefix [] s = refl
drop-has_prefix (c ∷ p) s = ground (arith, drop-has_prefix p s)
