-- ===== src/Telemetry.antt =====
-- internal/telemetry/telemetry.go: the counters of each target, and the handles of its requests.
pub mod Calls
pub mod Open
pub mod Balance
use ya_router.Common.{
  ℕ, ◌+◌, ◌-◌, ◌%◌, ◌^◌, Text, codes, Bool, true, false, Option, none, some, List, [], ◌∷◌, ◌++◌,
  Dict, lookup, put, nat_key, text_key, ltb, ◌==◌, ◌=?◌, not, text_less, sort, map, if◌then◌else◌,
}

pub data ErrorCategory : Type 0 where
  no_error invalid_request auth_required entitlement_denied rate_limited : ErrorCategory
  unsupported provider_unavailable transport model_unavailable timeout canceled : ErrorCategory

pub data ProviderDisplayState : Type 0 where
  serving ready cooldown needs_auth disabled error : ProviderDisplayState

-- A count of tokens is an `int64`, given by its bits.
pub record Usage : Type 0 where
  pub input_tokens : ℕ
  pub output_tokens : ℕ
  pub total_tokens : ℕ

pub record Outcome : Type 0 where
  pub success : Bool
  pub error_category : ErrorCategory
  pub produced_message : Bool
  pub usage : Option Usage

-- The counters are `uint64`. `in_flight` is an `int64` that is never negative: it starts at 0 and
-- goes down only from above it; and it does not exceed the number of handles.
pub record TargetState : Type 0 where
  pub requests : ℕ
  pub successes : ℕ
  pub errors : ℕ
  pub in_flight : ℕ
  pub messages : ℕ
  pub last_latency : ℕ
  pub last_error_category : ErrorCategory
  pub input_tokens : ℕ
  pub output_tokens : ℕ
  pub total_tokens : ℕ
  pub unavailable_usage_count : ℕ

abbrev pub new_target : TargetState
new_target = record {
  requests = 0;
  successes = 0;
  errors = 0;
  in_flight = 0;
  messages = 0;
  last_latency = 0;
  last_error_category = no_error;
  input_tokens = 0;
  output_tokens = 0;
  total_tokens = 0;
  unavailable_usage_count = 0;
}

-- `pending` is the outcome that a call of `Finish` carries from its first critical section, which
-- marks the handle, to its second, which counts it.
pub record InFlight : Type 0 where
  pub provider_id : Text
  pub model : Text
  pub start : ℕ
  pub done : Bool
  pub pending : Option Outcome

pub record Recorder : Type 0 where
  pub targets : Dict Text TargetState
  pub handles : Dict ℕ InFlight
  pub next_handle : ℕ

unfoldable pub target_key : Text → Text → Text
target_key provider model = provider ++ (0 ∷ model)

unfoldable pub split_target_key : Text → Text × Text
split_target_key [] = ([], [])
split_target_key (c ∷ s) = let (a, b) = split_target_key s in if c == 0 then ([], s) else (c ∷ a, b)

abbrev pub state_or_new : Option TargetState → TargetState
state_or_new none = new_target
state_or_new (some s) = s

-- `stateLocked`, with what is done to the state that it returns
abbrev pub on_state :
    Text → (TargetState → TargetState) → Dict Text TargetState → Dict Text TargetState
on_state key f targets = put key (f (state_or_new (lookup key targets))) targets

abbrev pub increment : ℕ → ℕ
increment n = (n + 1) % 2 ^ 64

abbrev pub begun : TargetState → TargetState
begun s = record s { requests = increment s.requests; in_flight = s.in_flight + 1 }

unfoldable pub begin : Text → Text → ℕ → Recorder → Recorder × ℕ
unfolding target_key
begin provider model now r =
    let handle : InFlight = record {
      provider_id = provider;
      model = model;
      start = now;
      done = false;
      pending = none;
    } in
    (
      record {
        targets = on_state (target_key provider model) begun r.targets;
        handles = put (r.next_handle + 1) handle r.handles;
        next_handle = r.next_handle + 1;
      },
      r.next_handle + 1,
    )

-- the first critical section of `Finish`
unfoldable pub finish_mark : ℕ → Outcome → Recorder → Option InFlight → Recorder
finish_mark h outcome r none = r
finish_mark h outcome r (some handle) = if handle.done then r else record r {
  handles = put h (record handle { done = true; pending = some outcome }) r.handles;
}

abbrev pub add_int64 : ℕ → ℕ → ℕ
add_int64 a b = (a + b) % 2 ^ 64

abbrev pub add_usage : Option Usage → TargetState → TargetState
add_usage none s = record s { unavailable_usage_count = increment s.unavailable_usage_count }
add_usage (some u) s = record s {
  input_tokens = add_int64 s.input_tokens u.input_tokens;
  output_tokens = add_int64 s.output_tokens u.output_tokens;
  total_tokens = add_int64 s.total_tokens u.total_tokens;
}

abbrev pub counted : Outcome → ℕ → TargetState → TargetState
counted outcome latency s = record s {
  in_flight = if ltb 0 s.in_flight then s.in_flight - 1 else s.in_flight;
  last_latency = latency;
  successes = if outcome.success then increment s.successes else s.successes;
  errors = if outcome.success then s.errors else increment s.errors;
  last_error_category = if outcome.success then s.last_error_category else outcome.error_category;
  messages = if outcome.produced_message then increment s.messages else s.messages;
}

unfoldable pub finish_pending : ℕ → InFlight → ℕ → Recorder → Option Outcome → Recorder
unfolding target_key
finish_pending h handle now r none = r
finish_pending h handle now r (some outcome) = record r {
  targets =
      on_state (target_key handle.provider_id handle.model)
        (λ s. add_usage outcome.usage (counted outcome (now - handle.start) s)) r.targets;
  handles = put h (record handle { pending = none }) r.handles;
}

-- the second critical section of `Finish`
unfoldable pub finish_count : ℕ → ℕ → Recorder → Option InFlight → Recorder
unfolding finish_pending
finish_count h now r none = r
finish_count h now r (some handle) = finish_pending h handle now r handle.pending

pub record TargetSnapshot : Type 0 where
  pub provider : Text
  pub model : Text
  pub state : TargetState

abbrev pub target_snapshot : Text × TargetState → TargetSnapshot
target_snapshot (key, s) =
    let (provider, model) = split_target_key key in
    record { provider = provider; model = model; state = s }

abbrev pub target_less : TargetSnapshot → TargetSnapshot → Bool
target_less a b =
    if a.provider =? b.provider then text_less a.model b.model else text_less a.provider b.provider

unfoldable pub telemetry_snapshot : Recorder → List TargetSnapshot
unfolding split_target_key
telemetry_snapshot r = sort target_less (map target_snapshot r.targets)

unfoldable pub derive_provider_state : Bool → Bool → Bool → Bool → ℕ → ProviderDisplayState
derive_provider_state enabled authenticated health_error has_active_cooldown in_flight =
    if not enabled
    then disabled
    else if health_error
    then error
    else if not authenticated
    then needs_auth
    else if has_active_cooldown
    then cooldown
    else if ltb 0 in_flight
    then serving
    else ready
