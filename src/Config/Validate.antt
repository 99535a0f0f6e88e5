-- ===== src/Config/Validate.antt =====
-- internal/config/validate.go: the check of the virtual models of a configuration.
use ya_router.Common.{
  Text, Bool, true, false, Option, none, some, List, [], ◌∷◌, lookup, text_key, ◌=?◌, is_empty,
  has_prefix, trim_space, contains, map, sort, text_less, not, ◌&&◌, ◌||◌, if◌then◌else◌,
}
use ya_router.Config.{
  ModelMapEntry, VirtualModel, RoutingConfig, strategy_priority, strategy_quota_priority,
}

-- each with the ID of the virtual model, and with the target where there is one
pub data ConfigError : Type 0 where
  empty_id id_collides_with_prefix id_shadows_model_map unsupported_strategy no_target :
      Text → ConfigError
  empty_target : Text → ConfigError
  duplicate_target virtual_target unknown_prefix : Text → Text → ConfigError

unfoldable pub match_known_prefix : Text → List Text → Bool
match_known_prefix id [] = false
match_known_prefix id (prefix ∷ prefixes) =
    let rest = match_known_prefix id prefixes in
    if not (is_empty prefix) && has_prefix id prefix then true else rest

abbrev pub is_virtual : Option VirtualModel → Bool
is_virtual none = false
is_virtual (some vm) = true

abbrev pub is_mapped : Option ModelMapEntry → Bool
is_mapped none = false
is_mapped (some e) = true

-- the loop over the targets, after the trimmed ones that it has seen
unfoldable pub validate_targets :
    List Text → RoutingConfig → Text → List Text → List Text → Option ConfigError
unfolding match_known_prefix
validate_targets prefixes r id seen [] = none
validate_targets prefixes r id seen (target ∷ targets) =
    let trimmed = trim_space target in
    let rest = validate_targets prefixes r id (trimmed ∷ seen) targets in
    if is_empty trimmed
    then some (empty_target id)
    else if contains trimmed seen
    then some (duplicate_target id trimmed)
    else if is_virtual (lookup trimmed r.virtual_models)
    then some (virtual_target id trimmed)
    else if not (match_known_prefix trimmed prefixes)
    then some (unknown_prefix id trimmed)
    else rest

abbrev pub is_supported_strategy : Text → Bool
is_supported_strategy s = s =? strategy_priority || s =? strategy_quota_priority

-- the body of the loop over the IDs; each ID is that of a virtual model
unfoldable pub validate_model :
    List Text → RoutingConfig → Text → Option VirtualModel → Option ConfigError
unfolding validate_targets
validate_model prefixes r id none = none
validate_model prefixes r id (some vm) =
    if is_empty (trim_space id)
    then some (empty_id id)
    else if match_known_prefix id prefixes
    then some (id_collides_with_prefix id)
    else if is_mapped (lookup id r.model_map)
    then some (id_shadows_model_map id)
    else if not (is_supported_strategy vm.strategy)
    then some (unsupported_strategy id)
    else if is_empty vm.targets
    then some (no_target id)
    else validate_targets prefixes r id [] vm.targets

abbrev pub first_error : Option ConfigError → Option ConfigError → Option ConfigError
first_error none rest = rest
first_error (some e) rest = some e

unfoldable pub validate_ids : List Text → RoutingConfig → List Text → Option ConfigError
unfolding validate_model
validate_ids prefixes r [] = none
validate_ids prefixes r (id ∷ ids) =
    first_error (validate_model prefixes r id (lookup id r.virtual_models))
      (validate_ids prefixes r ids)

abbrev pub model_ids : RoutingConfig → List Text
model_ids r = map (λ e. e.0) r.virtual_models

unfoldable pub validate_virtual_models : List Text → RoutingConfig → Option ConfigError
unfolding validate_ids
validate_virtual_models prefixes r = validate_ids prefixes r (sort text_less (model_ids r))
