-- ===== src/Availability.antt =====
-- internal/availability: whether a provider's model is routable for a capability.
pub mod Keys
pub mod Routable
use ya_router.Common.{
  ℕ, Text, Bool, true, false, Option, none, some, List, [], ◌∷◌, ◌++◌, Dict, lookup, put, is_empty,
  trim_space, to_lower, ltb, text_key, contains, map, not, ◌&&◌, ◌||◌, if◌then◌else◌,
}
use ya_router.Provider.{Time}

-- The codes are constants of the package, and no other value is made.
pub data Reason : Type 0 where
  routable provider_not_registered target_disabled provider_not_ready : Reason
  capability_unsupported model_disallowed model_not_in_catalog catalog_stale : Reason
  cooldown already_attempted : Reason

-- A Go string that the cooldown file may fill with anything: `other s` is none of the six.
pub data CooldownReason : Type 0 where
  rate_limited entitlement_denied auth_required transient_failure timeout : CooldownReason
  quota_exhausted : CooldownReason
  other : Text → CooldownReason

pub record Cooldown : Type 0 where
  pub model : Text
  pub capability : Text
  pub until : Time
  pub reason : CooldownReason

abbrev pub zero_cooldown : Cooldown
zero_cooldown = record { model = []; capability = []; until = 0; reason = other [] }

pub record ProviderView : Type 0 where
  pub id : Text
  pub disabled : Bool
  pub ready : Bool
  pub capabilities : List Text
  pub allowed_models : List Text
  pub catalog_present : Bool
  pub catalog_stale : Bool
  pub catalog_fetched_at : Time
  pub catalog_models : List Text
  pub cooldowns : List Cooldown

-- `map[string]struct{}` is the list of its elements
pub record ProviderEntry : Type 0 where
  pub disabled : Bool
  pub ready : Bool
  pub capabilities : List Text
  pub allowed : List Text
  pub has_allowlist : Bool
  pub catalog_present : Bool
  pub catalog_stale : Bool
  pub catalog_fetched_at : Time
  pub models : List Text
  pub cooldowns : Dict Text Cooldown

pub record Snapshot : Type 0 where
  pub generation : ℕ
  pub built_at : Time
  pub providers : Dict Text ProviderEntry

pub record TargetResult : Type 0 where
  pub is_routable : Bool
  pub reason : Reason
  pub generation : ℕ
  pub catalog_fetched_at : Time
  pub catalog_stale : Bool
  pub cooldown_until : Time
  pub cooldown_reason : CooldownReason

unfoldable pub normalize_model : Text → Text
normalize_model model = to_lower (trim_space model)

-- the NUL byte separates the parts
unfoldable pub cooldown_key : Text → Text → Text
cooldown_key model capability = capability ++ (0 ∷ normalize_model model)

-- the loop of `NewSnapshot` over `view.Cooldowns`
unfoldable pub add_cooldowns : Time → List Cooldown → Dict Text Cooldown → Dict Text Cooldown
add_cooldowns built_at [] m = m
add_cooldowns built_at (c ∷ cs) m =
    let model = normalize_model c.model in
    add_cooldowns built_at cs (
      if ltb built_at c.until
      then put (cooldown_key model c.capability) (record c { model = model }) m
      else m)

unfoldable pub entry_of : Time → ProviderView → ProviderEntry
entry_of built_at view = record {
  disabled = view.disabled;
  ready = view.ready;
  capabilities = view.capabilities;
  allowed = map normalize_model view.allowed_models;
  has_allowlist = not (is_empty view.allowed_models);
  catalog_present = view.catalog_present;
  catalog_stale = view.catalog_stale;
  catalog_fetched_at = view.catalog_fetched_at;
  models = map normalize_model view.catalog_models;
  cooldowns = add_cooldowns built_at view.cooldowns [];
}

unfoldable pub add_views :
    Time → List ProviderView → Dict Text ProviderEntry → Dict Text ProviderEntry
add_views built_at [] m = m
add_views built_at (view ∷ views) m =
    add_views built_at views (put view.id (entry_of built_at view) m)

unfoldable pub new_snapshot : ℕ → Time → List ProviderView → Snapshot
new_snapshot generation built_at views = record {
  generation = generation;
  built_at = built_at;
  providers = add_views built_at views [];
}

abbrev or_zero : Option Cooldown → Cooldown
or_zero none = zero_cooldown
or_zero (some c) = c

unfoldable pub entry_cooldown : ProviderEntry → Text → Text → Time → Cooldown
entry_cooldown entry model capability now =
    let c = or_zero (lookup (cooldown_key (normalize_model model) capability) entry.cooldowns) in
    if ltb now c.until then c else zero_cooldown

unfoldable pub is_allowed : ProviderEntry → Text → Bool
is_allowed entry bare_model = contains (normalize_model bare_model) entry.allowed

unfoldable pub has_model : ProviderEntry → Text → Bool
has_model entry bare_model = contains (normalize_model bare_model) entry.models

abbrev pub unregistered : ℕ → TargetResult
unregistered generation = record {
  is_routable = false;
  reason = provider_not_registered;
  generation = generation;
  catalog_fetched_at = 0;
  catalog_stale = false;
  cooldown_until = 0;
  cooldown_reason = other [];
}

-- the `switch` of `Evaluate`
unfoldable pub evaluate_entry : Snapshot → ProviderEntry → Text → Text → TargetResult
evaluate_entry s entry bare_model capability =
    let result : TargetResult = record (unregistered s.generation) {
      catalog_fetched_at = entry.catalog_fetched_at;
      catalog_stale = entry.catalog_stale;
    } in
    let c = entry_cooldown entry bare_model capability s.built_at in
    if entry.disabled
    then record result { reason = target_disabled }
    else if not entry.ready
    then record result { reason = provider_not_ready }
    else if not (contains capability entry.capabilities)
    then record result { reason = capability_unsupported }
    else if ltb s.built_at c.until
    then record result { reason = cooldown; cooldown_until = c.until; cooldown_reason = c.reason }
    else if entry.has_allowlist && not (is_allowed entry bare_model)
    then record result { reason = model_disallowed }
    else if not entry.catalog_present || not (has_model entry bare_model)
    then record result { reason = model_not_in_catalog }
    else record result { is_routable = true; reason = routable }

-- `none` is the nil snapshot
unfoldable pub evaluate : Option Snapshot → Text → Text → Text → TargetResult
evaluate none provider_id bare_model capability = unregistered 0
evaluate (some s) provider_id bare_model capability = elim (lookup provider_id s.providers) [
  | none ↦ unregistered s.generation
  | some entry ↦ evaluate_entry s entry bare_model capability
]
