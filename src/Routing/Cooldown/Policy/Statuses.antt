-- ===== src/Routing/Cooldown/Policy/Statuses.antt =====
-- internal/routing/cooldown.go: which outcomes of a dispatch start a cooldown, and which a quota one.
use ya_router.Common.{
  ℕ, Bool, true, false, Option, none, some, ℤ, exceeds, leb, ◌==◌, not, ◌&&◌, ◌||◌,
}
use ya_router.Availability.{CooldownReason}
use ya_router.Routing.Cooldown.Entry.{max_cooldown, is_quota}

abbrev pub starts : Option (CooldownReason × ℤ) → Bool
starts none = false
starts (some _) = true

abbrev pub starts_quota : Option (CooldownReason × ℤ) → Bool
starts_quota none = false
starts_quota (some (reason, _)) = is_quota reason

-- a status of the provider that is a failure of the target
abbrev pub is_failure_status : ℕ → Bool
is_failure_status s = leb 500 s || (s == 401 || (s == 402 || (s == 403 || (s == 408 || s == 429))))

-- a status that says that the quota is used up: 429 is one unless a wait of at most 5 minutes is
-- known
abbrev pub is_quota_status : ℕ → ℤ → Bool
is_quota_status s wait =
    s == 402 || (s == 403 || (s == 429 && not (exceeds wait 0 && not (exceeds wait max_cooldown))))
