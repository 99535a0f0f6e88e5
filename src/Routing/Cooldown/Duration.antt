-- ===== src/Routing/Cooldown/Duration.antt =====
-- How long a cooldown lasts.
use Prim.Native.Nat.{min, max}
use native.Mathlib.Nat.{pow-suc}
use ya_router.Common.{
  ℕ, zero, suc, ◌-◌, ◌*◌, ◌^◌, ◌≤◌, ◌≡◌, false, ltb, ℤ, pos, arith, refl, ◌∙◌, Bool-cases, inl, inr,
  negsuc, pos_part,
}
use ya_router.Availability.{CooldownReason, quota_exhausted, other}
use ya_router.Routing.Cooldown.Entry.{
  base_cooldown, max_cooldown, quota_cooldown, double_cooldown, is_quota, cooldown_duration,
}

one-le-pow : (n : ℕ) → 1 ≤ 2 ^ n
one-le-pow zero = omega arith
one-le-pow (suc n) = rw pow-suc (omega (arith, one-le-pow n))

le-mul_of_one-le : (d p : ℕ) → 1 ≤ p → d ≤ d * (p * 2)
le-mul_of_one-le d p h = grind arith

past_limit :
    (d p : ℕ) → 1 ≤ p → max_cooldown ≤ d → min max_cooldown d ≡ min max_cooldown (d * (p * 2))
past_limit d p h k = omega (arith, le-mul_of_one-le d p h)

-- The loop stops early only past the limit, so up to the limit it is the power of two.
min-double_cooldown :
    (n d : ℕ) → min max_cooldown (double_cooldown n d) ≡ min max_cooldown (d * 2 ^ n)
unfolding double_cooldown
min-double_cooldown zero d = omega arith
min-double_cooldown (suc n) d = elim (Bool-cases (ltb d max_cooldown)) [
  | inl below ↦ rw below (min-double_cooldown n (d * 2) ∙ rw pow-suc (omega arith))
  | inr above ↦ rw above (rw pow-suc (past_limit d (2 ^ n) (one-le-pow n) (ground arith)))
]

-- A cooldown that is not for quota doubles with each failure up to 5 minutes; a longer hint takes
-- its place, and is held to the same 5 minutes.
pub cooldown_duration_lem :
    (reason : CooldownReason) (failures : ℕ) (hint : ℤ)
    → is_quota reason ≡ false
    → cooldown_duration reason failures hint
      ≡ max
          (min max_cooldown (base_cooldown * 2 ^ (failures - 1)))
          (min max_cooldown (pos_part hint))
unfolding cooldown_duration
cooldown_duration_lem reason failures (pos h) q =
    ground (arith, min-double_cooldown (failures - 1) base_cooldown)
cooldown_duration_lem reason failures (negsuc h) q =
    ground (arith, min-double_cooldown (failures - 1) base_cooldown)

-- A quota cooldown lasts 24 hours, or the hint if that is longer.
pub cooldown_duration-quota :
    (failures : ℕ) (hint : ℤ)
    → cooldown_duration quota_exhausted failures hint ≡ max quota_cooldown (pos_part hint)
unfolding cooldown_duration
cooldown_duration-quota failures (pos h) = ground arith
cooldown_duration-quota failures (negsuc h) = ground arith

base-le-cooldown_duration : (failures : ℕ) → base_cooldown ≤ base_cooldown * 2 ^ (failures - 1)
base-le-cooldown_duration failures = grind (arith, one-le-pow (failures - 1))

-- Every cooldown lasts at least 15 seconds, whatever its reason, failures and hint.
pub base_cooldown-le :
    (reason : CooldownReason) (failures : ℕ) (hint : ℤ)
    → base_cooldown ≤ cooldown_duration reason failures hint
base_cooldown-le quota_exhausted failures hint =
    omega (arith, cooldown_duration-quota failures hint)
base_cooldown-le (other s) failures hint =
    omega (
      arith,
      cooldown_duration_lem (other s) failures hint refl,
      base-le-cooldown_duration failures,
    )
base_cooldown-le r failures hint =
    omega (arith, cooldown_duration_lem r failures hint refl, base-le-cooldown_duration failures)
