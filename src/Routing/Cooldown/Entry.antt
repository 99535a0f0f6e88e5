-- ===== src/Routing/Cooldown/Entry.antt =====
-- internal/routing/cooldown.go: the entries of the registry, their keys and durations.
use ya_router.Common.{
  ℕ, zero, suc, ◌+◌, ◌-◌, ◌*◌, Text, Bool, true, false, Option, none, some, ◌∷◌, ◌++◌, text_key,
  ltb, trim_space, to_lower, ℤ, pos, exceeds, pos_part, ◌&&◌, if◌then◌else◌,
}
use ya_router.Provider.{Time}
use ya_router.Availability.{CooldownReason, quota_exhausted, other}

-- nanoseconds: 15 s, 5 min, 24 h
abbrev pub base_cooldown : ℕ
base_cooldown = 15000000000

abbrev pub max_cooldown : ℕ
max_cooldown = 300000000000

abbrev pub quota_cooldown : ℕ
quota_cooldown = 86400000000000

abbrev pub cooldown_state_version : ℕ
cooldown_state_version = 1

abbrev pub max_persisted_cooldowns : ℕ
max_persisted_cooldowns = 4096

pub record CooldownEntry : Type 0 where
  pub provider_id : Text
  pub model : Text
  pub capability : Text
  pub until : Time
  pub reason : CooldownReason
  pub failures : ℕ

unfoldable pub valid_cooldown_reason : CooldownReason → Bool
valid_cooldown_reason (other _) = false
valid_cooldown_reason _ = true

unfoldable pub cooldown_entry_key : Text → Text → Text → Text
cooldown_entry_key provider_id model capability =
    provider_id ++ (0 ∷ (capability ++ (0 ∷ to_lower (trim_space model))))

abbrev pub entry_key : CooldownEntry → Text
entry_key e = cooldown_entry_key e.provider_id e.model e.capability

-- `for step := 1; step < failures && duration < maxCooldown; step++`
unfoldable pub double_cooldown : ℕ → ℕ → ℕ
double_cooldown zero d = d
double_cooldown (suc n) d =
    let rest = double_cooldown n (d * 2) in if ltb d max_cooldown then rest else d

abbrev pub is_quota : CooldownReason → Bool
is_quota quota_exhausted = true
is_quota _ = false

unfoldable pub cooldown_duration : CooldownReason → ℕ → ℤ → ℕ
cooldown_duration reason failures hint =
    if is_quota reason
    then (if exceeds hint quota_cooldown then pos_part hint else quota_cooldown)
    else let doubled = double_cooldown (failures - 1) base_cooldown in
      let duration = if ltb max_cooldown doubled then max_cooldown else doubled in
      let capped = if exceeds hint max_cooldown then pos max_cooldown else hint in
      if exceeds hint 0 && exceeds capped duration then pos_part capped else duration

abbrev pub failures_after : Time → Option CooldownEntry → ℕ
failures_after now none = 1
failures_after now (some e) = if ltb now e.until then e.failures + 1 else 1

abbrev pub until_after : ℕ → Option CooldownEntry → ℕ
until_after until none = until
until_after until (some e) = if ltb until e.until then e.until else until
