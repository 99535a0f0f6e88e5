-- ===== src/Tests/Providers.antt =====
-- A reconciliation that fails.
use ya_router.Common.{
  ℕ, Text, codes, true, false, Option, none, some, List, [], ◌∷◌, ◌≡◌, refl, pos, lookup, put,
}
use ya_router.Provider.{Provider}
use ya_router.Provider.Lifecycle.{Factory, built, no_health, new_event_bus}
use ya_router.Provider.Manager.{
  Manager, DesiredProvider, instance_rejected, build, close_providers, validate_accounts,
  validate_capabilities,
}
use ya_router.Provider.Manager.Reconcile.{reconcile, reconcile_loop, validate_desired}
use ya_router.Provider.Manager.Atomic.{IsUntouched}
use ya_router.Provider.Manager.Failure.{reconcile_failed-IsUntouched}

abbrev chat_provider : Text → Provider
chat_provider id = record {
  id = id;
  capabilities = codes "chat" ∷ [];
  authenticated = true;
  list_models = none;
  allowed_model_ids = none;
  last_known_models = none;
}

abbrev factory_of : Text → Option Text → Factory ℕ
factory_of id verdict = record {
  descriptor = record {
    id = id;
    name = id;
    capabilities = codes "chat" ∷ [];
    config_schema = [];
    schema_version = pos 1;
  };
  validate_config = λ c. none;
  build = λ n c. built (chat_provider id) no_health true;
  validate_provider = λ p. verdict;
}

abbrev two_factories : Manager ℕ
two_factories = record {
  factories =
      (codes "kilo", factory_of (codes "kilo") none)
      ∷ (codes "codex", factory_of (codes "codex") (some []))
      ∷ [];
  factory_order = codes "kilo" ∷ codes "codex" ∷ [];
  desired = [];
  effective = [];
  health = [];
  events = new_event_bus 4;
  next_instance = 0;
  draining = [];
  closed = [];
}

abbrev wanted : Text → DesiredProvider ℕ
wanted id = record { id = id; enabled = true; config = 0; config_fingerprint = []; accounts = [] }

abbrev both_wanted : List (DesiredProvider ℕ)
both_wanted = wanted (codes "kilo") ∷ wanted (codes "codex") ∷ []

second_rejected :
    (reconcile (λ c. some []) false both_wanted (some 1) two_factories).1 ≡ some instance_rejected
unfolding reconcile reconcile_loop validate_desired validate_accounts validate_capabilities build
    close_providers lookup put
second_rejected = refl

both_closed :
    (reconcile (λ c. some []) false both_wanted (some 1) two_factories).0.closed ≡ 1 ∷ 2 ∷ []
unfolding reconcile reconcile_loop validate_desired validate_accounts validate_capabilities build
    close_providers lookup put
both_closed = refl

reconcile_failed-IsUntouched_example :
    IsUntouched two_factories
      (reconcile (λ c. some []) false both_wanted (some 1) two_factories).0
      []
reconcile_failed-IsUntouched_example =
    reconcile_failed-IsUntouched (λ c. some []) false both_wanted (some 1) two_factories
      instance_rejected second_rejected
