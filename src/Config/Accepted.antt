-- ===== src/Config/Accepted.antt =====
-- internal/config/validate.go: which configurations are accepted.
use ya_router.Common.{
  Text, Bool, true, false, Option, none, some, List, [], ◌∷◌, ◌≡◌, refl, ◌∙◌, arith, lookup,
  text_key, ◌=?◌, =?_iff, is_empty, trim_space, contains, any, any-sort, sort, text_less, not, ◌||◌,
}
use ya_router.Config.{VirtualModel, RoutingConfig}
use ya_router.Config.Validate.{
  ConfigError, match_known_prefix, is_virtual, is_mapped, validate_targets, is_supported_strategy,
  validate_model, first_error, validate_ids, model_ids, validate_virtual_models,
}

abbrev pub is_refused : Option ConfigError → Bool
is_refused none = false
is_refused (some e) = true

-- A target is empty, or virtual, or of no known provider.
abbrev pub is_bad_target : List Text → RoutingConfig → Text → Bool
is_bad_target prefixes r target =
    is_empty (trim_space target)
    || (is_virtual (lookup (trim_space target) r.virtual_models)
        || not (match_known_prefix (trim_space target) prefixes))

-- Two targets are the same but for outer white space.
abbrev pub repeats : List Text → Bool
repeats [] = false
repeats (t ∷ ts) = any (λ u. trim_space u =? trim_space t) ts || repeats ts

abbrev pub is_bad_model : List Text → RoutingConfig → Text → Option VirtualModel → Bool
is_bad_model prefixes r id none = false
is_bad_model prefixes r id (some vm) =
    is_empty (trim_space id)
    || (match_known_prefix id prefixes
        || (is_mapped (lookup id r.model_map)
            || (not (is_supported_strategy vm.strategy)
                || (is_empty vm.targets
                    || (any (is_bad_target prefixes r) vm.targets || repeats vm.targets)))))

abbrev seen_in : List Text → Text → Bool
seen_in seen t = contains (trim_space t) seen

seen_more :
    (x : Text) (seen ts : List Text)
    → any (seen_in (x ∷ seen)) ts ≡ (any (λ u. trim_space u =? x) ts || any (seen_in seen) ts)
seen_more x seen [] = refl
seen_more x seen (t ∷ ts) =
    ground (arith, seen_more x seen ts, =?_iff x (trim_space t), =?_iff (trim_space t) x)

refused-validate_targets :
    (prefixes : List Text) (r : RoutingConfig) (id : Text) (seen ts : List Text)
    → is_refused (validate_targets prefixes r id seen ts)
      ≡ (any (is_bad_target prefixes r) ts || (repeats ts || any (seen_in seen) ts))
unfolding validate_targets
refused-validate_targets prefixes r id seen [] = refl
refused-validate_targets prefixes r id seen (t ∷ ts) = ground (
  arith,
  refused-validate_targets prefixes r id (trim_space t ∷ seen) ts,
  seen_more (trim_space t) seen ts,
)

nothing_seen : (ts : List Text) → any (seen_in []) ts ≡ false
nothing_seen [] = refl
nothing_seen (t ∷ ts) = nothing_seen ts

refused-validate_model :
    (prefixes : List Text) (r : RoutingConfig) (id : Text) (o : Option VirtualModel)
    → is_refused (validate_model prefixes r id o) ≡ is_bad_model prefixes r id o
unfolding validate_model
refused-validate_model prefixes r id none = refl
refused-validate_model prefixes r id (some vm) =
    ground (arith, refused-validate_targets prefixes r id [] vm.targets, nothing_seen vm.targets)

abbrev pub is_bad_id : List Text → RoutingConfig → Text → Bool
is_bad_id prefixes r id = is_bad_model prefixes r id (lookup id r.virtual_models)

refused-first_error :
    (o rest : Option ConfigError)
    → is_refused (first_error o rest) ≡ (is_refused o || is_refused rest)
refused-first_error none rest = refl
refused-first_error (some e) rest = refl

refused-validate_ids :
    (prefixes : List Text) (r : RoutingConfig) (ids : List Text)
    → is_refused (validate_ids prefixes r ids) ≡ any (is_bad_id prefixes r) ids
unfolding validate_ids
refused-validate_ids prefixes r [] = refl
refused-validate_ids prefixes r (id ∷ ids) = ground (
  arith,
  refused-first_error (validate_model prefixes r id (lookup id r.virtual_models))
      (validate_ids prefixes r ids),
  refused-validate_model prefixes r id (lookup id r.virtual_models),
  refused-validate_ids prefixes r ids,
)

-- A configuration is refused exactly if one of its virtual models is bad, in whatever order they
-- stand: its ID is blank, begins with a provider prefix or is in the model map, its strategy is not
-- supported, it has no target, or it has one that is blank, virtual or of no known provider, or two
-- that are the same but for outer white space.
pub refused-validate_virtual_models :
    (prefixes : List Text) (r : RoutingConfig)
    → is_refused (validate_virtual_models prefixes r) ≡ any (is_bad_id prefixes r) (model_ids r)
unfolding validate_virtual_models
refused-validate_virtual_models prefixes r =
    refused-validate_ids prefixes r (sort text_less (model_ids r))
    ∙ any-sort text_less (is_bad_id prefixes r) (model_ids r)
