-- ===== src/Tests/Samples.antt =====
-- A router with one provider, a virtual model of two targets, and a store with two operations.
use ya_router.Common.{Text, codes, true, false, none, some, [], ◌∷◌, pos}
use ya_router.Provider.{Provider, codex, capability_chat}
use ya_router.Provider.Registry.{Registry, new_registry}
use ya_router.Availability.{Cooldown, ProviderView, rate_limited}
use ya_router.Config.{VirtualModel, strategy_priority}
use ya_router.Routing.Metrics.{Metrics}
use ya_router.Routing.Cooldown.Registry.{new_cooldown_registry}
use ya_router.Routing.Preferred.{new_preferred_target_registry}
use ya_router.Routing.Router.{Router, Readings}
use ya_router.Operation.Types.{
  State, running, succeeded, recovery_fail, Record, Event, CreateRequest, Options,
}
use ya_router.Operation.Store.{Entry, Store}

abbrev pub codex_provider : Provider
codex_provider = record {
  id = codex;
  capabilities = capability_chat ∷ [];
  authenticated = true;
  list_models = some (codes "gpt-5" ∷ []);
  allowed_model_ids = none;
  last_known_models = some (record { models = codes "gpt-5" ∷ []; fetched_at = 10; stale = false });
}

abbrev pub sample_registry : Registry
sample_registry = new_registry (some codex_provider ∷ none ∷ [])

abbrev pub gpt : Text
gpt = codes "codex/gpt-5"

abbrev pub sample_vm : VirtualModel
sample_vm = record { strategy = strategy_priority; targets = gpt ∷ codes "copilot/gpt-4.1" ∷ [] }

abbrev pub umbrella : Text
umbrella = codes "umbrella"

abbrev pub no_metrics : Metrics
no_metrics = record {
  selections = [];
  no_active_target = [];
  skipped = [];
  stale_catalog = [];
  cooldown_entries = [];
  cooldown_exits = [];
}

abbrev pub sample_router : Router
sample_router = record {
  registry = sample_registry;
  routing = record {
    default_model = gpt;
    default_provider = codex;
    model_map = [];
    virtual_models = (umbrella, sample_vm) ∷ [];
  };
  generation = 1;
  metrics = no_metrics;
  cooldowns = new_cooldown_registry;
  preferred = new_preferred_target_registry;
}

abbrev pub readings : Readings
readings = record { now = λ _. 1000; replaced = λ _. true; built_at = 1000 }

abbrev pub sample_cooldown : Cooldown
sample_cooldown = record {
  model = codes "gpt-5";
  capability = capability_chat;
  until = 2000;
  reason = rate_limited;
}

abbrev pub cooling_view : ProviderView
cooling_view = record {
  id = codex;
  disabled = false;
  ready = true;
  capabilities = capability_chat ∷ [];
  allowed_models = [];
  catalog_present = true;
  catalog_stale = false;
  catalog_fetched_at = 10;
  catalog_models = codes "gpt-5" ∷ [];
  cooldowns = sample_cooldown ∷ [];
}

abbrev pub free_view : ProviderView
free_view = record cooling_view { cooldowns = [] }

abbrev pub options : Options
options = record { max_operations = 2; max_events = 1; retention = 100; default_ttl = 50 }

abbrev pub record_in : Text → State → Record
record_in id state = record {
  id = id;
  kind = codes "login";
  target = codex;
  owner = codes "tui";
  state = state;
  progress = pos 0;
  cancelable = true;
  recovery_policy = recovery_fail;
  created_at = 1;
  updated_at = 1;
  expires_at = 500;
  sequence = 1;
  failure = none;
  metadata = none;
  result = none;
}

abbrev pub done : Entry
done = record {
  contents = record_in (codes "op_1") succeeded;
  idempotency_hash = [];
  request_digest = [];
}

abbrev pub live : Entry
live = record {
  contents = record_in (codes "op_2") running;
  idempotency_hash = [];
  request_digest = [];
}

abbrev pub first_event : Event
first_event = record {
  sequence = 1;
  operation_id = codes "op_1";
  event_type = codes "created";
  state = succeeded;
  timestamp = 1;
}

abbrev pub sample_store : Store
sample_store = record {
  options = options;
  operations = (codes "op_1", done) ∷ (codes "op_2", live) ∷ [];
  events = first_event ∷ [];
  next_sequence = 1;
  subscribers = [];
  next_sub_id = 0;
  closed = false;
  disk = record { next_sequence = 0; operations = []; events = [] };
}

abbrev pub request : CreateRequest
request = record {
  kind = codes "login";
  target = codex;
  owner = codes "tui";
  cancelable = true;
  expires_at = 900;
  recovery_policy = recovery_fail;
  metadata = none;
  idempotency_key = codes "k";
  request_digest = codes "d";
}
