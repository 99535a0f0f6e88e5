-- ===== src/Provider.antt =====
-- internal/provider/provider.go: provider IDs, capabilities, and a provider as the router sees it.
-- The answers that a provider gives to the router during one request are the fields of a record;
-- the optional interfaces `allowlistReporter` and `lastKnownCatalog` are those of
-- internal/routing/router.go.
pub mod Registry
pub mod Lifecycle
pub mod Manager
use ya_router.Common.{Text, codes, ℕ, Bool, Option, List}

-- Times are nanoseconds since Go's zero time, so `IsZero` is a test for 0.
abbrev pub Time : Type 0
Time = ℕ

abbrev pub copilot : Text
copilot = codes "copilot"

abbrev pub codex : Text
codex = codes "codex"

abbrev pub kilo : Text
kilo = codes "kilo"

abbrev pub capability_chat : Text
capability_chat = codes "chat"

abbrev pub capability_embeddings : Text
capability_embeddings = codes "embeddings"

-- What `LastKnownModels` returns with `ok`.
pub record Catalog : Type 0 where
  pub models : List Text
  pub fetched_at : Time
  pub stale : Bool

pub record Provider : Type 0 where
  pub id : Text
  pub capabilities : List Text
  -- `Health(ctx).Authenticated`
  pub authenticated : Bool
  -- the model IDs of `ListModels(ctx)`, `none` for an error or a nil list
  pub list_models : Option (List Text)
  -- `AllowedModelIDs()`, `none` where the provider does not implement it
  pub allowed_model_ids : Option (List Text)
  -- `LastKnownModels()`, `none` where it is not implemented or nothing was cached
  pub last_known_models : Option Catalog
