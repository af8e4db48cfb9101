-- ===== src/Bridge/Messages.antt =====
-- The records that the bridge's process writes: ExactFields, IntegerInRange, TerminalErrors,
-- ValidateStatus, ValidateCompletion, ValidateMetrics, IsCommandError, IsFatalTopLevelError,
-- ValidateResponse and ValidateReady. The JSON values are those of nlohmann::json; a record without
-- duplicate keys, which StrictJson has seen to, has as many members as keys.
pub mod Strict
pub mod Statuses
pub mod Dispositions
use twow_repo.Base.{
  ℕ, suc, ◌-◌, ◌^◌, Bool, true, false, not, ◌&&◌, ◌||◌, List, [], ◌∷◌, Option, none, some, ltb, leb,
  ◌==◌, if◌then◌else◌, Bytes, codes, bytes_eq, bytes_lt, is_empty, length, all, contains,
}
use twow_repo.Base.Int.{ℤ, pos, negsuc}
use twow_repo.Wire.Json.{
  Json, null, boolean, integer, string, object, Members, done, member, find_member,
}
use twow_repo.Bridge.Uuid.{is_canonical_uuid_v4}
use twow_repo.Bridge.Stamps.{is_canonical_timestamp}
use twow_repo.Bridge.Utf8.{is_canonical_sanitized_text}

abbrev pub bot_guid : ℕ
bot_guid = 18281

abbrev pub model_name : Bytes
model_name = codes "qwen2.5:7b"

abbrev size_of : Members → ℕ
size_of done = 0
size_of (member k v ms) = suc (size_of ms)

abbrev pub is_some : Option Json → Bool
is_some none = false
is_some (some v) = true

unfoldable pub exact_fields : Json → List Bytes → Bool
exact_fields (object ms) fields =
    size_of ms == length fields && all (λ f. is_some (find_member (object ms) f)) fields
exact_fields _ fields = false

-- `value["key"]`, on a record that has the key; elsewhere the code has gone back before.
abbrev pub value_or_null : Option Json → Json
value_or_null none = null
value_or_null (some v) = v

unfoldable pub field : Json → Bytes → Json
field value key = value_or_null (find_member value key)

abbrev pub is_null : Json → Bool
is_null null = true
is_null _ = false

abbrev pub is_string : Json → Bool
is_string (string s) = true
is_string _ = false

abbrev pub is_boolean : Json → Bool
is_boolean (boolean b) = true
is_boolean _ = false

-- The getters, each behind a test of the kind.
abbrev pub text_of : Json → Bytes
text_of (string s) = s
text_of _ = []

abbrev pub number_of : Json → ℕ
number_of (integer (pos n)) = n
number_of _ = 0

abbrev pub truth_of : Json → Bool
truth_of (boolean b) = b
truth_of _ = false

unfoldable pub integer_in_range : Json → ℕ → ℕ → Bool
integer_in_range (integer (pos n)) minimum maximum = leb minimum n && leb n maximum
integer_in_range _ minimum maximum = false

-- `value == "text"` on a value that is a string.
abbrev pub is_text : Json → Bytes → Bool
is_text v text = bytes_eq (text_of v) text

unfoldable pub terminal_errors : List Bytes
terminal_errors =
    codes "shutdown_cancelled"
    ∷ codes "shutdown_timeout"
    ∷ codes "queue_full"
    ∷ codes "expired_before_run"
    ∷ codes "stale_result"
    ∷ codes "expired_before_consume"
    ∷ codes "completion_mismatch"
    ∷ codes "response_model_mismatch"
    ∷ codes "invalid_monotonic_deadline"
    ∷ codes "request_expired"
    ∷ codes "http_request_too_large"
    ∷ codes "inference_http_error"
    ∷ codes "invalid_content_length"
    ∷ codes "raw_response_too_large"
    ∷ codes "response_aborted"
    ∷ codes "http_response_error"
    ∷ codes "http_transport_error"
    ∷ codes "connect_failed"
    ∷ codes "connect_deadline"
    ∷ codes "response_deadline"
    ∷ codes "request_cancelled"
    ∷ codes "input_too_large"
    ∷ codes "utf8_bom_forbidden"
    ∷ codes "invalid_utf8"
    ∷ codes "invalid_json"
    ∷ codes "json_trailing_content"
    ∷ codes "json_depth_exceeded"
    ∷ codes "duplicate_json_key"
    ∷ codes "invalid_json_string"
    ∷ codes "invalid_json_number"
    ∷ codes "invalid_unicode_scalar"
    ∷ codes "schema_type_mismatch"
    ∷ codes "schema_missing_field"
    ∷ codes "schema_unknown_field"
    ∷ codes "invalid_inference_schema"
    ∷ codes "incomplete_inference_response"
    ∷ codes "invalid_assistant_role"
    ∷ codes "invalid_assistant_text"
    ∷ codes "empty_assistant_text"
    ∷ codes "assistant_text_too_long"
    ∷ codes "assistant_text_too_many_bytes"
    ∷ codes "too_many_sentences"
    ∷ codes "invalid_raw_response_bytes"
    ∷ codes "inference_failed"
    ∷ []

unfoldable pub known_terminal_error : Json → Bool
known_terminal_error value = is_string value && contains terminal_errors (text_of value)

unfoldable pub error_allows_attempt : Bytes → ℕ → Bool
error_allows_attempt error attempt =
    if bytes_eq error (codes "queue_full") || bytes_eq error (codes "expired_before_run")
    then attempt == 0
    else if bytes_eq error (codes "shutdown_cancelled") || bytes_eq error (codes "shutdown_timeout")
    then leb attempt 1
    else attempt == 1

unfoldable pub is_expiry_error : Bytes → Bool
is_expiry_error error =
    bytes_eq error (codes "expired_before_run")
    || bytes_eq error (codes "stale_result")
    || bytes_eq error (codes "expired_before_consume")
