-- ===== src/Tests/Configs.antt =====
-- A configuration that is refused.
use ya_router.Common.{
  codes, [], ◌∷◌, ◌≡◌, refl, any, some, lookup, trim_space, trim_left, trim_right, sort,
  insert_sorted,
}
use ya_router.Config.{RoutingConfig, strategy_priority}
use ya_router.Config.Validate.{
  validate_virtual_models, validate_ids, validate_model, validate_targets, match_known_prefix,
  model_ids, duplicate_target,
}
use ya_router.Config.Accepted.{is_refused, is_bad_id, refused-validate_virtual_models}

abbrev repeating : RoutingConfig
repeating = record {
  default_model = [];
  default_provider = [];
  model_map = [];
  virtual_models =
      (
        codes "auto",
        record { strategy = strategy_priority; targets = codes "kilo/a" ∷ codes " kilo/a" ∷ [] },
      )
      ∷ [];
}

repeating_refused :
    validate_virtual_models (codes "kilo/" ∷ []) repeating
    ≡ some (duplicate_target (codes "auto") (codes "kilo/a"))
unfolding validate_virtual_models validate_ids validate_model validate_targets match_known_prefix
    lookup trim_space trim_left trim_right sort insert_sorted
repeating_refused = refl

refused-validate_virtual_models_example :
    is_refused (validate_virtual_models (codes "kilo/" ∷ []) repeating)
    ≡ any (is_bad_id (codes "kilo/" ∷ []) repeating) (model_ids repeating)
refused-validate_virtual_models_example =
    refused-validate_virtual_models (codes "kilo/" ∷ []) repeating
