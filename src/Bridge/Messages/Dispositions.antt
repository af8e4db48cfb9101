-- ===== src/Bridge/Messages/Dispositions.antt =====
-- IsCommandError, IsFatalTopLevelError, ValidateResponse and ValidateReady. A response that is not
-- valid has the default fields here: the caller reads no other field of such a one.
pub mod Consumed
use twow_repo.Base.{
  Bool, true, false, not, ◌&&◌, ◌||◌, List, [], ◌∷◌, Option, none, some, ◌==◌, if◌then◌else◌, Bytes,
  codes, bytes_eq, is_empty,
}
use twow_repo.Wire.Json.{Json}
use twow_repo.Bridge.Messages.{
  bot_guid, model_name, exact_fields, field, is_null, is_string, is_boolean, text_of, number_of,
  truth_of, integer_in_range, is_text,
}
use twow_repo.Bridge.Messages.Statuses.{
  Completion, validate_status, validate_completion, validate_metrics,
}

pub data CommandKind : Type 0 where
  nothing submit status consume metrics shutdown : CommandKind

pub record Disposition : Type 0 where
  pub valid : Bool
  pub ledger_full : Bool
  pub terminal : Bool
  pub consumed : Bool
  pub already_consumed : Bool
  pub status_state : Bytes
  pub completion : Completion

abbrev pub no_completion : Completion
no_completion = record {
  request_id = [];
  bot = 0;
  outcome = [];
  model = [];
  attempt_count = 0;
  started_utc = [];
  completed_utc = [];
  text = [];
  error_code = [];
  error_is_null = false;
  raw_response_bytes = 0;
  raw_response_bytes_is_null = false;
}

abbrev pub invalid : Disposition
invalid = record {
  valid = false;
  ledger_full = false;
  terminal = false;
  consumed = false;
  already_consumed = false;
  status_state = [];
  completion = no_completion;
}

-- `out.valid = b`.
abbrev valid_if : Bool → Disposition
valid_if b = record invalid { valid = b }

unfoldable pub is_command_error : Json → Bool
is_command_error value =
    exact_fields value (codes "code" ∷ codes "message" ∷ [])
    && is_string (field value (codes "code"))
    && not (is_empty (text_of (field value (codes "code"))))
    && is_string (field value (codes "message"))

unfoldable pub is_fatal_top_level_error : Json → Bool
is_fatal_top_level_error value =
    exact_fields value (codes "result" ∷ codes "code" ∷ codes "message" ∷ [])
    && is_string (field value (codes "result"))
    && is_text (field value (codes "result")) (codes "PHASE1A_BRIDGE_ERROR")
    && is_string (field value (codes "code"))
    && not (is_empty (text_of (field value (codes "code"))))
    && is_string (field value (codes "message"))

unfoldable pub is_terminal_state : Bytes → Bool
is_terminal_state state =
    bytes_eq state (codes "ready")
    || bytes_eq state (codes "failed")
    || bytes_eq state (codes "expired")
    || bytes_eq state (codes "consumed")

-- A valid status, and whether no more will come of its request.
abbrev with_state : Bytes → Disposition
with_state state = record invalid {
  valid = true;
  terminal = is_terminal_state state;
  status_state = state;
}

-- The state that goes with the code, and for two codes the error that goes with it.
submit_allows : Bytes → Bytes → Json → Bool
submit_allows code state report =
    if bytes_eq code (codes "queued")
    then bytes_eq state (codes "queued")
    else if bytes_eq code (codes "queue_full")
    then bytes_eq state (codes "failed")
      && number_of (field report (codes "attempt_count")) == 0
      && is_text (field report (codes "error_code")) (codes "queue_full")
    else if bytes_eq code (codes "expired")
    then bytes_eq state (codes "expired")
      && number_of (field report (codes "attempt_count")) == 0
      && is_text (field report (codes "error_code")) (codes "expired_before_run")
    else true

submitted : Bytes → Json → Option Bytes → Disposition
unfolding submit_allows
submitted code report none = invalid
submitted code report (some state) =
    if submit_allows code state report then with_state state else invalid

abbrev is_submit_code : Bytes → Bool
is_submit_code code =
    bytes_eq code (codes "queued")
    || bytes_eq code (codes "duplicate")
    || bytes_eq code (codes "queue_full")
    || bytes_eq code (codes "expired")

abbrev same_truth : Bool → Bool → Bool
same_truth a b = if a then b else not b

submit_response : Json → Bytes → Disposition
unfolding submitted
submit_response value request_id =
    let code = text_of (field value (codes "code")) in
    let accepted = truth_of (field value (codes "accepted")) in
    let report = field value (codes "status") in
    if not (exact_fields value (codes "accepted" ∷ codes "code" ∷ codes "status" ∷ []))
      || not (is_boolean (field value (codes "accepted")))
      || not (is_string (field value (codes "code")))
    then invalid
    else if bytes_eq code (codes "ledger_full")
    then (if not accepted && is_null report
        then record invalid { valid = true; ledger_full = true }
        else invalid)
    else if bytes_eq code (codes "identity_mismatch")
    then valid_if (not accepted && is_null report)
    else if not (is_submit_code code)
    then invalid
    else if not (same_truth accepted (bytes_eq code (codes "queued"))) || is_null report
    then invalid
    else submitted code report (validate_status report request_id)

found_state : Option Bytes → Disposition
found_state none = invalid
found_state (some state) = with_state state

abbrev is_key_error : Bytes → Bool
is_key_error code =
    bytes_eq code (codes "invalid_uuid")
    || bytes_eq code (codes "invalid_bot_guid")
    || bytes_eq code (codes "not_found")
    || bytes_eq code (codes "identity_mismatch")

status_response : Json → Bytes → Disposition
unfolding found_state
status_response value request_id =
    let code = text_of (field value (codes "code")) in
    let report = field value (codes "status") in
    if not (exact_fields value (codes "code" ∷ codes "status" ∷ []))
      || not (is_string (field value (codes "code")))
    then invalid
    else if bytes_eq code (codes "ok")
    then (if is_null report then invalid else found_state (validate_status report request_id))
    else if is_key_error code
    then valid_if (is_null report)
    else invalid

-- `!=` between the attempts, which are integers by now, and between the errors: null or a string.
abbrev same_error : Json → Json → Bool
same_error a b =
    if is_null a || is_null b then is_null a && is_null b else bytes_eq (text_of a) (text_of b)

abbrev agrees : Json → Json → Bool
agrees report completion =
    number_of (field report (codes "attempt_count"))
      == number_of (field completion (codes "attempt_count"))
    && same_error (field report (codes "error_code")) (field completion (codes "error_code"))

consumed_completion : Json → Json → Bytes → Option Completion → Disposition
consumed_completion report completion state none = invalid
consumed_completion report completion state (some c) =
    if agrees report completion
    then record invalid { valid = true; consumed = true; status_state = state; completion = c }
    else invalid

consumed_state : Json → Json → Bytes → Option Bytes → Disposition
unfolding consumed_completion
consumed_state report completion request_id none = invalid
consumed_state report completion request_id (some state) =
    if bytes_eq state (codes "consumed")
    then consumed_completion report completion state (validate_completion completion request_id)
    else invalid

not_ready_state : Option Bytes → Disposition
not_ready_state none = invalid
not_ready_state (some state) =
    if bytes_eq state (codes "queued") || bytes_eq state (codes "running")
    then record invalid { valid = true; status_state = state }
    else invalid

already_consumed_state : Option Bytes → Disposition
already_consumed_state none = invalid
already_consumed_state (some state) =
    if bytes_eq state (codes "consumed")
    then record invalid { valid = true; already_consumed = true; status_state = state }
    else invalid

consume_response : Json → Bytes → Disposition
unfolding consumed_state not_ready_state already_consumed_state
consume_response value request_id =
    let code = text_of (field value (codes "code")) in
    let report = field value (codes "status") in
    let completion = field value (codes "completion") in
    if not (exact_fields value (codes "code" ∷ codes "status" ∷ codes "completion" ∷ []))
      || not (is_string (field value (codes "code")))
    then invalid
    else if bytes_eq code (codes "consumed")
    then (if is_null report || is_null completion
        then invalid
        else consumed_state report completion request_id (validate_status report request_id))
    else if bytes_eq code (codes "not_ready")
    then (if is_null report || not (is_null completion)
        then invalid
        else not_ready_state (validate_status report request_id))
    else if bytes_eq code (codes "already_consumed")
    then (if is_null report || not (is_null completion)
        then invalid
        else already_consumed_state (validate_status report request_id))
    else if is_key_error code
    then valid_if (is_null report && is_null completion)
    else invalid

metrics_response : Json → Bytes → Bool → Disposition
metrics_response value code stopped = valid_if (
    exact_fields value (codes "code" ∷ codes "metrics" ∷ [])
    && is_string (field value (codes "code"))
    && is_text (field value (codes "code")) code
    && validate_metrics (field value (codes "metrics")) stopped)

response_of : CommandKind → Json → Bytes → Disposition
unfolding submit_response status_response consume_response metrics_response
response_of submit value request_id = submit_response value request_id
response_of status value request_id = status_response value request_id
response_of consume value request_id = consume_response value request_id
response_of metrics value request_id = metrics_response value (codes "metrics") false
response_of shutdown value request_id = metrics_response value (codes "shutdown") true
response_of nothing value request_id = invalid

unfoldable pub validate_response : CommandKind → Json → Bytes → Disposition
unfolding response_of
validate_response kind value request_id =
    if is_command_error value then invalid else response_of kind value request_id

abbrev ready_fields : List Bytes
ready_fields =
    codes "code"
    ∷ codes "mode"
    ∷ codes "active_limit"
    ∷ codes "waiting_capacity"
    ∷ codes "ledger_capacity"
    ∷ codes "bot_guid"
    ∷ codes "model"
    ∷ []

unfoldable pub validate_ready : Json → Bool
validate_ready value =
    exact_fields value ready_fields
    && is_string (field value (codes "code"))
    && is_text (field value (codes "code")) (codes "ready")
    && is_string (field value (codes "mode"))
    && is_text (field value (codes "mode")) (codes "server_free_ndjson")
    && integer_in_range (field value (codes "active_limit")) 1 1
    && integer_in_range (field value (codes "waiting_capacity")) 2 2
    && integer_in_range (field value (codes "ledger_capacity")) 64 64
    && integer_in_range (field value (codes "bot_guid")) bot_guid bot_guid
    && is_string (field value (codes "model"))
    && is_text (field value (codes "model")) model_name
