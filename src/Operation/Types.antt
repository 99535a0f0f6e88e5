-- ===== src/Operation/Types.antt =====
-- internal/operation/types.go: states, records, events and requests.
use ya_router.Common.{
  ℕ, Text, codes, Bool, true, false, Option, [], ◌∷◌, Dict, ℤ, text_key, ◌=?◌, leb, ◌==◌, all,
  length, trim_space, ◌&&◌, ◌||◌, if◌then◌else◌,
}
use ya_router.Provider.{Time}

pub data State : Type 0 where
  pending running waiting_for_user succeeded failed cancelled expired : State

unfoldable pub terminal : State → Bool
terminal succeeded = true
terminal failed = true
terminal cancelled = true
terminal expired = true
terminal _ = false

-- A Go string: `unset` is the empty one, `other_policy s` any that is none of these.
pub data RecoveryPolicy : Type 0 where
  unset recovery_fail recovery_expire : RecoveryPolicy
  other_policy : Text → RecoveryPolicy

pub record Failure : Type 0 where
  pub code : Text
  pub message : Text
  pub retryable : Bool

-- `map[string]string`, `none` for nil
abbrev pub Fields : Type 0
Fields = Option (Dict Text Text)

pub record Record : Type 0 where
  pub id : Text
  pub kind : Text
  pub target : Text
  pub owner : Text
  pub state : State
  pub progress : ℤ
  pub cancelable : Bool
  pub recovery_policy : RecoveryPolicy
  pub created_at : Time
  pub updated_at : Time
  pub expires_at : Time
  pub sequence : ℕ
  pub failure : Option Failure
  pub metadata : Fields
  pub result : Fields

pub record Event : Type 0 where
  pub sequence : ℕ
  pub operation_id : Text
  pub event_type : Text
  pub state : State
  pub timestamp : Time

pub record CreateRequest : Type 0 where
  pub kind : Text
  pub target : Text
  pub owner : Text
  pub cancelable : Bool
  pub expires_at : Time
  pub recovery_policy : RecoveryPolicy
  pub metadata : Fields
  pub idempotency_key : Text
  pub request_digest : Text

pub record Options : Type 0 where
  pub max_operations : ℕ
  pub max_events : ℕ
  pub retention : ℕ
  pub default_ttl : ℕ

abbrev pub is_lower : ℕ → Bool
is_lower c = leb b'a' c && leb c b'z'

abbrev pub is_digit : ℕ → Bool
is_digit c = leb b'0' c && leb c b'9'

abbrev pub is_code_byte : ℕ → Bool
is_code_byte c = is_lower c || (is_digit c || c == b'_')

-- `^[a-z][a-z0-9_]{0,63}$`, the expression of `safeCode` and of `safeKind`
unfoldable pub safe_code : Text → Bool
safe_code [] = false
safe_code (c ∷ s) = is_lower c && (leb (length s) 63 && all is_code_byte s)

unfoldable pub failure_message : Text → Text
failure_message code =
    if code =? codes "operation_cancelled"
    then codes "The operation was cancelled."
    else if code =? codes "operation_expired"
    then codes "The operation expired."
    else if code =? codes "operation_interrupted"
    then codes "The operation was interrupted."
    else if code =? codes "operation_panic"
    then codes "The operation failed unexpectedly."
    else if code =? codes "progress_failed"
    then codes "Operation progress could not be persisted."
    else codes "The operation failed."

-- The message that the caller gives is dropped.
unfoldable pub new_failure : Text → Bool → Failure
new_failure given retryable =
    let trimmed = trim_space given in
    let code = if safe_code trimmed then trimmed else codes "operation_failed" in
    record { code = code; message = failure_message code; retryable = retryable }

unfoldable pub allowed_transition : State → State → Bool
allowed_transition pending pending = false
allowed_transition pending _ = true
allowed_transition running pending = false
allowed_transition running running = false
allowed_transition running _ = true
allowed_transition waiting_for_user pending = false
allowed_transition waiting_for_user waiting_for_user = false
allowed_transition waiting_for_user _ = true
allowed_transition _ _ = false
