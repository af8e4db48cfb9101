-- ===== src/Bridge/Messages/Statuses.antt =====
-- ValidateStatus, ValidateCompletion and ValidateMetrics.
use twow_repo.Base.{
  ℕ, ◌-◌, ◌^◌, Bool, true, false, not, ◌&&◌, ◌||◌, List, [], ◌∷◌, Option, none, some, ◌==◌,
  if◌then◌else◌, Bytes, codes, bytes_eq, bytes_lt, contains,
}
use twow_repo.Wire.Json.{Json}
use twow_repo.Bridge.Uuid.{is_canonical_uuid_v4}
use twow_repo.Bridge.Stamps.{is_canonical_timestamp}
use twow_repo.Bridge.Utf8.{is_canonical_sanitized_text}
use twow_repo.Bridge.Messages.{
  bot_guid, model_name, exact_fields, field, is_null, is_string, is_boolean, text_of, number_of,
  truth_of, integer_in_range, is_text, known_terminal_error, error_allows_attempt, is_expiry_error,
}

abbrev status_fields : List Bytes
status_fields =
    codes "schema_version"
    ∷ codes "request_id"
    ∷ codes "bot_guid"
    ∷ codes "state"
    ∷ codes "queued_utc"
    ∷ codes "updated_utc"
    ∷ codes "attempt_count"
    ∷ codes "error_code"
    ∷ []

-- A string that is a stamp.
abbrev pub is_stamp : Json → Bool
is_stamp v = is_string v && is_canonical_timestamp (text_of v)

-- The first test of `ValidateStatus`, and the order of its two times.
unfoldable pub status_shape : Json → Bytes → Bool
status_shape value request_id =
    is_canonical_uuid_v4 request_id
    && exact_fields value status_fields
    && integer_in_range (field value (codes "schema_version")) 1 1
    && is_string (field value (codes "request_id"))
    && is_text (field value (codes "request_id")) request_id
    && integer_in_range (field value (codes "bot_guid")) bot_guid bot_guid
    && is_string (field value (codes "state"))
    && is_stamp (field value (codes "queued_utc"))
    && is_stamp (field value (codes "updated_utc"))
    && integer_in_range (field value (codes "attempt_count")) 0 1
    && not (
        bytes_lt (text_of (field value (codes "updated_utc")))
          (text_of (field value (codes "queued_utc"))))

-- The branches on the state: its attempts and its error.
unfoldable pub state_allows : Bytes → ℕ → Json → Bool
state_allows state attempt error =
    if bytes_eq state (codes "queued")
    then attempt == 0 && is_null error
    else if bytes_eq state (codes "running") || bytes_eq state (codes "ready")
    then attempt == 1 && is_null error
    else if bytes_eq state (codes "failed")
    then known_terminal_error error
      && not (is_expiry_error (text_of error))
      && error_allows_attempt (text_of error) attempt
    else if bytes_eq state (codes "expired")
    then is_string error
      && is_expiry_error (text_of error)
      && error_allows_attempt (text_of error) attempt
    else if bytes_eq state (codes "consumed")
    then (if is_null error
        then attempt == 1
        else known_terminal_error error && error_allows_attempt (text_of error) attempt)
    else false

-- The state that goes to `stateOut`, where the status is valid.
unfoldable pub validate_status : Json → Bytes → Option Bytes
unfolding status_shape state_allows
validate_status value request_id =
    let state = text_of (field value (codes "state")) in
    if not (status_shape value request_id)
    then none
    else if state_allows state (number_of (field value (codes "attempt_count")))
        (field value (codes "error_code"))
    then some state
    else none

pub record Completion : Type 0 where
  pub request_id : Bytes
  pub bot : ℕ
  pub outcome : Bytes
  pub model : Bytes
  pub attempt_count : ℕ
  pub started_utc : Bytes
  pub completed_utc : Bytes
  pub text : Bytes
  pub error_code : Bytes
  pub error_is_null : Bool
  pub raw_response_bytes : ℕ
  pub raw_response_bytes_is_null : Bool

abbrev completion_fields : List Bytes
completion_fields =
    codes "schema_version"
    ∷ codes "request_id"
    ∷ codes "bot_guid"
    ∷ codes "outcome"
    ∷ codes "model"
    ∷ codes "attempt_count"
    ∷ codes "started_utc"
    ∷ codes "completed_utc"
    ∷ codes "text"
    ∷ codes "error_code"
    ∷ codes "raw_response_bytes"
    ∷ []

unfoldable pub completion_shape : Json → Bytes → Bool
completion_shape value request_id =
    is_canonical_uuid_v4 request_id
    && exact_fields value completion_fields
    && integer_in_range (field value (codes "schema_version")) 1 1
    && is_string (field value (codes "request_id"))
    && is_text (field value (codes "request_id")) request_id
    && integer_in_range (field value (codes "bot_guid")) bot_guid bot_guid
    && is_string (field value (codes "outcome"))
    && integer_in_range (field value (codes "attempt_count")) 0 1
    && is_stamp (field value (codes "completed_utc"))

abbrev is_model : Json → Bool
is_model v = is_string v && is_text v model_name

-- The tests of a completion that is ready, on the fields after the shape.
unfoldable pub ready_allows : ℕ → Json → Json → Json → Json → Json → Bytes → Bool
ready_allows attempt model started text error raw completed =
    attempt == 1
    && is_model model
    && is_stamp started
    && is_string text
    && is_null error
    && integer_in_range raw 0 65536
    && not (bytes_lt completed (text_of started))
    && is_canonical_sanitized_text (text_of text)

-- The tests of one that failed or expired.
unfoldable pub error_allows : Bytes → ℕ → Json → Json → Json → Json → Json → Bytes → Bool
error_allows outcome attempt model started text error raw completed =
    is_null text
    && known_terminal_error error
    && error_allows_attempt (text_of error) attempt
    && (if bytes_eq outcome (codes "expired")
        then is_expiry_error (text_of error)
        else not (is_expiry_error (text_of error)))
    && (if attempt == 0
        then is_null started
          && is_null model
          && is_null raw
          && (bytes_eq (text_of error) (codes "queue_full")
              || bytes_eq (text_of error) (codes "expired_before_run")
              || bytes_eq (text_of error) (codes "shutdown_cancelled")
              || bytes_eq (text_of error) (codes "shutdown_timeout"))
        else is_stamp started
          && (is_null model || is_model model)
          && (is_null raw || integer_in_range raw 0 65536)
          && not (bytes_lt completed (text_of started)))

-- What the function stores for either kind; the getters give nothing for a null.
unfoldable pub stored : Json → Bool → Bytes → Completion
stored value ready request_id = record {
  request_id = text_of (field value (codes "request_id"));
  bot = number_of (field value (codes "bot_guid"));
  outcome = text_of (field value (codes "outcome"));
  model = text_of (field value (codes "model"));
  attempt_count = number_of (field value (codes "attempt_count"));
  started_utc = text_of (field value (codes "started_utc"));
  completed_utc = text_of (field value (codes "completed_utc"));
  text = if ready then text_of (field value (codes "text")) else [];
  error_code = if ready then [] else text_of (field value (codes "error_code"));
  error_is_null = ready;
  raw_response_bytes = number_of (field value (codes "raw_response_bytes"));
  raw_response_bytes_is_null =
      if ready then false else is_null (field value (codes "raw_response_bytes"));
}

unfoldable pub validate_completion : Json → Bytes → Option Completion
unfolding completion_shape ready_allows error_allows stored
validate_completion value request_id =
    let outcome = text_of (field value (codes "outcome")) in
    let attempt = number_of (field value (codes "attempt_count")) in
    let model = field value (codes "model") in
    let started = field value (codes "started_utc") in
    let text = field value (codes "text") in
    let error = field value (codes "error_code") in
    let raw = field value (codes "raw_response_bytes") in
    let completed = text_of (field value (codes "completed_utc")) in
    if not (completion_shape value request_id)
    then none
    else if bytes_eq outcome (codes "ready")
    then (if ready_allows attempt model started text error raw completed
        then some (stored value true request_id)
        else none)
    else if not (bytes_eq outcome (codes "failed")) && not (bytes_eq outcome (codes "expired"))
    then none
    else if error_allows outcome attempt model started text error raw completed
    then some (stored value false request_id)
    else none

abbrev metrics_fields : List Bytes
metrics_fields =
    codes "lifecycle"
    ∷ codes "accepting"
    ∷ codes "waiting"
    ∷ codes "ledger_entries"
    ∷ codes "active"
    ∷ codes "max_active_observed"
    ∷ codes "inference_attempts"
    ∷ codes "stale_results_discarded"
    ∷ codes "worker_owned"
    ∷ codes "worker_settled"
    ∷ []

abbrev lifecycles : List Bytes
lifecycles =
    codes "new"
    ∷ codes "starting"
    ∷ codes "running"
    ∷ codes "stopping"
    ∷ codes "stopped"
    ∷ codes "failed"
    ∷ []

metrics_shape : Json → Bool
metrics_shape value =
    exact_fields value metrics_fields
    && is_string (field value (codes "lifecycle"))
    && is_boolean (field value (codes "accepting"))
    && integer_in_range (field value (codes "waiting")) 0 2
    && integer_in_range (field value (codes "ledger_entries")) 0 64
    && integer_in_range (field value (codes "active")) 0 1
    && integer_in_range (field value (codes "max_active_observed")) 0 1
    && integer_in_range (field value (codes "inference_attempts")) 0 64
    && integer_in_range (field value (codes "stale_results_discarded")) 0 (2 ^ 64 - 1)
    && is_boolean (field value (codes "worker_owned"))
    && is_boolean (field value (codes "worker_settled"))

-- Nothing runs any more, and the worker has let go.
has_stopped : Json → Bool
has_stopped value =
    is_text (field value (codes "lifecycle")) (codes "stopped")
    && not (truth_of (field value (codes "accepting")))
    && number_of (field value (codes "waiting")) == 0
    && number_of (field value (codes "active")) == 0
    && truth_of (field value (codes "worker_owned"))
    && truth_of (field value (codes "worker_settled"))

unfoldable pub validate_metrics : Json → Bool → Bool
unfolding metrics_shape has_stopped
validate_metrics value stopped =
    if not (metrics_shape value)
    then false
    else if not (contains lifecycles (text_of (field value (codes "lifecycle"))))
    then false
    else if stopped && not (has_stopped value)
    then false
    else true
