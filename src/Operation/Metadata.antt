-- ===== src/Operation/Metadata.antt =====
-- internal/operation/store.go: what is accepted in a request and as metadata.
use ya_router.Common.{
  Text, Bool, true, false, Option, none, some, [], ◌∷◌, Dict, put, text_key, ltb, leb, ◌==◌, all,
  length, trim_space, is_empty, not, ◌&&◌, ◌||◌, if◌then◌else◌,
}
use ya_router.Provider.{Time}
use ya_router.Operation.Types.{
  RecoveryPolicy, other_policy, Fields, CreateRequest, is_lower, is_code_byte, safe_code,
}

-- `^[a-z][a-z0-9_.-]{0,63}$`
unfoldable pub safe_metadata_key : Text → Bool
safe_metadata_key [] = false
safe_metadata_key (c ∷ s) =
    is_lower c && (leb (length s) 63 && all (λ b. is_code_byte b || (b == b'.' || b == b'-')) s)

-- the loop of `validateMetadata`; `none` is an error
unfoldable pub validate_fields : Dict Text Text → Dict Text Text → Option (Dict Text Text)
validate_fields [] result = some result
validate_fields ((key, value) ∷ m) result =
    let rest = validate_fields m (put (trim_space key) (trim_space value) result) in
    if not (safe_metadata_key (trim_space key)) || ltb 1024 (length (trim_space value))
    then none
    else rest

abbrev fields_of : Fields → Dict Text Text
fields_of none = []
fields_of (some m) = m

unfoldable pub validate_metadata : Fields → Option (Dict Text Text)
validate_metadata source =
    if ltb 32 (length (fields_of source)) then none else validate_fields (fields_of source) []

unfoldable pub sanitize_metadata : Fields → Fields
sanitize_metadata source = elim (validate_metadata source) [
  | none ↦ none
  | some [] ↦ none
  | some (x ∷ m) ↦ some (x ∷ m)
]

pub data RequestError : Type 0 where
  invalid_kind owner_required target_too_long expiry_passed unsupported_policy : RequestError
  invalid_metadata digest_required : RequestError

abbrev is_supported : RecoveryPolicy → Bool
is_supported (other_policy _) = false
is_supported _ = true

abbrev is_invalid : Option (Dict Text Text) → Bool
is_invalid none = true
is_invalid (some _) = false

unfoldable pub validate_create : CreateRequest → Time → Option RequestError
validate_create request now =
    if not (safe_code request.kind)
    then some invalid_kind
    else if is_empty (trim_space request.owner) || ltb 256 (length request.owner)
    then some owner_required
    else if ltb 512 (length request.target)
    then some target_too_long
    else if not (ltb now request.expires_at)
    then some expiry_passed
    else if not (is_supported request.recovery_policy)
    then some unsupported_policy
    else if is_invalid (validate_metadata request.metadata)
    then some invalid_metadata
    else if not (is_empty request.idempotency_key) && is_empty (trim_space request.request_digest)
    then some digest_required
    else none
