-- ===== src/Config.antt =====
-- internal/config/types.go: the part of the configuration that routing reads.
pub mod Validate
pub mod Accepted
use ya_router.Common.{Text, codes, List, Dict}

pub record ModelMapEntry : Type 0 where
  pub provider : Text
  pub upstream_model : Text

abbrev pub strategy_priority : Text
strategy_priority = codes "priority"

abbrev pub strategy_quota_priority : Text
strategy_quota_priority = codes "quota_priority"

pub record VirtualModel : Type 0 where
  pub strategy : Text
  pub targets : List Text

pub record RoutingConfig : Type 0 where
  pub default_model : Text
  pub default_provider : Text
  pub model_map : Dict Text ModelMapEntry
  pub virtual_models : Dict Text VirtualModel
