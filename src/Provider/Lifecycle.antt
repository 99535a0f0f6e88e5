-- ===== src/Provider/Lifecycle.antt =====
-- internal/provider: descriptors and factories (descriptor.go), lifecycle events (events.go) and
-- health records (health_registry.go). The time stamps of events and records are left out, and the
-- channels of live subscribers, which may lose events: the history is what counts.
use ya_router.Common.{
  ℕ, ◌+◌, ◌-◌, ◌%◌, ◌^◌, Text, Bool, false, Option, none, some, List, [], ◌∷◌, ◌++◌, Dict, put,
  text_key, ◌==◌, ltb, contains, is_empty, length, drop_list, ℤ, exceeds, not, if◌then◌else◌,
}
use ya_router.Provider.{Provider}

pub record ConfigField : Type 0 where
  pub name : Text
  pub required : Bool
  pub secret : Bool

pub record Descriptor : Type 0 where
  pub id : Text
  pub name : Text
  pub capabilities : List Text
  pub config_schema : List ConfigField
  pub schema_version : ℤ

pub data DescriptorError : Type 0 where
  id_required name_required schema_version_not_positive no_capability unnamed_field :
      DescriptorError
  repeated_field : Text → DescriptorError

-- the loop over the fields, after those that it has seen
abbrev pub validate_fields : List Text → List ConfigField → Option DescriptorError
validate_fields seen [] = none
validate_fields seen (f ∷ fs) =
    let rest = validate_fields (f.name ∷ seen) fs in
    if is_empty f.name
    then some unnamed_field
    else if contains f.name seen
    then some (repeated_field f.name)
    else rest

unfoldable pub validate_descriptor : Descriptor → Option DescriptorError
validate_descriptor d =
    if is_empty d.id
    then some id_required
    else if is_empty d.name
    then some name_required
    else if not (exceeds d.schema_version 0)
    then some schema_version_not_positive
    else if is_empty d.capabilities
    then some no_capability
    else validate_fields [] d.config_schema

pub record Health : Type 0 where
  pub authenticated : Bool
  pub can_refresh : Bool
  pub last_error : Text

-- A provider instance: the pointer to it, what it answers, its health, and whether `Close` succeeds.
pub record Instance : Type 0 where
  pub serial : ℕ
  pub provider : Provider
  pub health : Health
  pub closes : Bool

-- What the functions of a factory answer. Each call of `Build` may answer something else: it gets
-- the number of the instance.
pub data Built : Type 0 where
  build_failed : Text → Built
  nil_provider : Built
  built : Provider → Health → Bool → Built

pub record Factory (Config : Type 0) : Type 0 where
  pub descriptor : Descriptor
  pub validate_config : Config → Option Text
  pub build : ℕ → Config → Built
  pub validate_provider : Provider → Option Text

pub data EventType : Type 0 where
  factory_registered factory_unregistered constructing validating published removed : EventType
  reconcile_failed drain_started drain_timed_out drained : EventType

pub record LifecycleEvent : Type 0 where
  pub sequence : ℕ
  pub kind : EventType
  pub provider_id : Text
  pub generation : ℕ
  pub reason : Text

pub record EventBus : Type 0 where
  pub next_sequence : ℕ
  pub history_limit : ℕ
  pub history : List LifecycleEvent

unfoldable pub new_event_bus : ℕ → EventBus
new_event_bus limit = record {
  next_sequence = 0;
  history_limit = if limit == 0 then 256 else limit;
  history = [];
}

-- an event before `Publish` numbers it
abbrev pub event_of : EventType → Text → ℕ → Text → LifecycleEvent
event_of kind id generation reason = record {
  sequence = 0;
  kind = kind;
  provider_id = id;
  generation = generation;
  reason = reason;
}

unfoldable pub publish_event : LifecycleEvent → EventBus → EventBus
publish_event event bus =
    let sequence = (bus.next_sequence + 1) % 2 ^ 64 in
    let grown = bus.history ++ record event { sequence = sequence } ∷ [] in
    record bus {
      next_sequence = sequence;
      history = drop_list (length grown - bus.history_limit) grown;
    }

abbrev pub events_since : ℕ → List LifecycleEvent → List LifecycleEvent
events_since after [] = []
events_since after (e ∷ es) =
    let rest = events_since after es in if ltb after e.sequence then e ∷ rest else rest

abbrev pub event_history : ℕ → EventBus → List LifecycleEvent
event_history after bus = events_since after bus.history

pub data State : Type 0 where
  disabled enabled_unconfigured ready degraded error draining : State

pub record HealthRecord : Type 0 where
  pub provider_id : Text
  pub state : State
  pub health : Health
  pub generation : ℕ

abbrev pub no_health : Health
no_health = record { authenticated = false; can_refresh = false; last_error = [] }

abbrev pub disabled_record : Text → ℕ → HealthRecord
disabled_record id generation = record {
  provider_id = id;
  state = disabled;
  health = no_health;
  generation = generation;
}

-- `Set` of the health registry
unfoldable pub set_health : HealthRecord → Dict Text HealthRecord → Dict Text HealthRecord
set_health r records = if is_empty r.provider_id then records else put r.provider_id r records

unfoldable pub state_from_health : Health → State
state_from_health h =
    if h.authenticated
    then ready
    else if not (is_empty h.last_error)
    then error
    else if h.can_refresh
    then degraded
    else enabled_unconfigured
