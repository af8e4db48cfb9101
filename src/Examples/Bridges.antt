-- ===== src/Examples/Bridges.antt =====
-- Runs of the client of the bridge.
use twow_repo.Base.{
  ℕ, ◌+◌, ◌<◌, ◌≤◌, ap, ◌∙◌, ◌++◌, ◌≡◌, ◌≢◌, ◌↔◌, refl, arith, true, List, [], ◌∷◌, some, none,
  Bytes, codes, All, length, bytes_eq, bytes_lt, ◌/◌, if◌then◌else◌,
}
use twow_repo.Bridge.Utf8.{decode_utf8, decode_scalar, is_canonical_sanitized_text}
use twow_repo.Bridge.Utf8.Strings.{encode_all, AllPass, decode_utf8_iff}
use twow_repo.Bridge.Utf8.Sanitized.{IsSpoken, is_canonical_sanitized_text_iff}
use twow_repo.Bridge.Uuid.{is_canonical_uuid_v4, new_uuid_v4, new_uuid_v4-canonical}
use twow_repo.Bridge.Calendar.{
  IsMoment, civil, gm_time, year_from, month_from, month_length, date_of,
}
use twow_repo.Bridge.Stamps.{put_utc, is_canonical_timestamp, format_utc}
use twow_repo.Bridge.Stamps.Printed.{is_canonical_timestamp_iff}
use twow_repo.Bridge.Stamps.Clock.{format_utc-canonical}
use twow_repo.Bridge.Stamps.Order.{earlier, bytes_lt-put_utc}
use twow_repo.Bridge.Messages.Strict.{Parser, strict_json, may_be_parsed, is_object}
use twow_repo.Bridge.Messages.Strict.Trees.{events_of, is_strict, strict_json_iff}
use twow_repo.Bridge.Messages.Statuses.{validate_completion}
use twow_repo.Bridge.Messages.Dispositions.{nothing, validate_response}
use twow_repo.Bridge.State.{Status, Impl, accepted, find_route, validate_delivery_evidence}
use twow_repo.Bridge.State.Evidence.{validate_completion-evidence}
use twow_repo.Bridge.Admission.{Submission, admitted, try_submit}
use twow_repo.Bridge.Responses.{apply_response}
use twow_repo.Bridge.Whispers.{deliver}
use twow_repo.Bridge.Whispers.Safe.{IsFair, deliver-IsFair}
use twow_repo.Bridge.Worker.{Bridge, drain_lines}
use twow_repo.Bridge.Worker.Lines.{IsDrained, drain_lines-IsDrained}
use twow_repo.Bridge.Runs.{start_system, run, perform}
use twow_repo.Bridge.Runs.Invariant.{IsSound, phase_at}
use twow_repo.Bridge.Runs.Steps.{AllFresh, start_system-IsSound}
use twow_repo.Bridge.Runs.Bounds.{run-start-IsSound, apply_response_iff}
use twow_repo.Bridge.Runs.Latched.{IsShut, run-IsShut}
use twow_repo.Bridge.Runs.Lifecycle.{is_path}
use twow_repo.Bridge.Runs.Lifecycle.Refined.{phases, run_refines}
use twow_repo.Base.{contains}
use twow_repo.Bridge.Commands.{choose_command, drop_expired, pick}
use twow_repo.Bridge.Messages.Dispositions.{
  is_command_error, is_fatal_top_level_error, is_terminal_state, validate_ready,
}
use twow_repo.Bridge.Messages.Statuses.{completion_shape, ready_allows, stored, validate_status}
use twow_repo.Bridge.Messages.{exact_fields, field, integer_in_range}
use twow_repo.Bridge.Responses.{apply_valid}
use twow_repo.Bridge.Stamps.{days_of, is_date_time, number_from, stamp_digits}
use twow_repo.Bridge.State.{emplace_route, erase_session, find_session, observe_session, set_phase}
use twow_repo.Bridge.Utf8.{
  after_lead, continued, decode_from, finish_scalar, is_allowed, is_ecma_trim_whitespace,
  is_terminator, is_trim_empty, is_wide_whitespace, lead, sanitized_from, trim_empty_from,
}
use twow_repo.Bridge.Uuid.{uuid_digits}
use twow_repo.Bridge.Whispers.{evidence, same, whisper_if}
use twow_repo.Bridge.Worker.{begin_start, handle_record, read_pipes, send_command, spawn_worker}
use twow_repo.Wire.Json.{find_member}
use twow_repo.Bridge.Messages.Dispositions.{consume}
use twow_repo.Bridge.Messages.{error_allows_attempt}
use twow_repo.Bridge.Messages.Statuses.{status_shape, state_allows}
use twow_repo.Bridge.Whispers.{update_world}
use twow_repo.Bridge.Runs.Invariant.{Kept}
use twow_repo.Bridge.Runs.Served.{IsPresent, update_world-apply_response}
use twow_repo.Examples.Client.{
  consumed_record, consumed_disposition, consumed_route, being_consumed,
}
use twow_repo.Examples.Client.{
  parser, world, calls, sending, awaiting, shut, printed, completion_record, request, stamp,
  queued_record, delivery, waiting_route, answer,
}

-- The one submission of the calls finds an empty table.
calls-AllFresh : AllFresh world parser calls start_system
unfolding find_member bytes_eq lead continued is_allowed finish_scalar after_lead decode_scalar
    decode_from decode_utf8 exact_fields field integer_in_range is_fatal_top_level_error
    validate_ready may_be_parsed strict_json find_route observe_session read_pipes handle_record
    drain_lines begin_start spawn_worker perform
calls-AllFresh = (
  tt,
  (
    tt,
    (
      tt,
      (
        tt,
        (
          tt,
          (tt, (record { no_route = refl; no_delivery = tt; not_held = tt }, (tt, (tt, (tt, tt))))),
        ),
      ),
    ),
  ),
)

run-start-IsSound_example :
    IsSound (run world parser calls start_system).bridge (run world parser calls start_system).held
run-start-IsSound_example = run-start-IsSound world parser calls calls-AllFresh

-- The request is in the table at the end, and it was accepted.
calls-run :
    phase_at request (run world parser calls start_system).bridge.impl.routes ≡ some accepted
unfolding find_member bytes_eq contains bytes_lt lead continued is_allowed finish_scalar after_lead
    decode_scalar decode_from decode_utf8 is_ecma_trim_whitespace trim_empty_from is_trim_empty
    is_canonical_uuid_v4 is_canonical_timestamp exact_fields field integer_in_range validate_status
    is_command_error is_fatal_top_level_error is_terminal_state validate_response validate_ready
    may_be_parsed strict_json find_session erase_session find_route emplace_route set_phase
    observe_session try_submit drop_expired pick choose_command apply_valid apply_response
    read_pipes handle_record drain_lines send_command begin_start spawn_worker perform run
calls-run = refl

run_refines_example :
    is_path
      (phase_at request start_system.bridge.impl.routes)
      (phases world parser request calls start_system)
    ≡ true
run_refines_example =
    run_refines world parser calls start_system calls-AllFresh start_system-IsSound request

sending-AllFresh : AllFresh world parser sending start_system
unfolding find_member bytes_eq lead continued is_allowed finish_scalar after_lead decode_scalar
    decode_from decode_utf8 exact_fields field integer_in_range is_fatal_top_level_error
    validate_ready may_be_parsed strict_json find_route observe_session read_pipes handle_record
    drain_lines begin_start spawn_worker perform
sending-AllFresh = (
  tt,
  (
    tt,
    (tt, (tt, (tt, (tt, (record { no_route = refl; no_delivery = tt; not_held = tt }, (tt, tt)))))),
  ),
)

abbrev sent_request : Bridge
sent_request = (run world parser sending start_system).bridge

sent_request-awaits : sent_request.pending_kind ≢ nothing
unfolding find_member bytes_eq contains bytes_lt lead continued is_allowed finish_scalar after_lead
    decode_scalar decode_from decode_utf8 is_ecma_trim_whitespace trim_empty_from is_trim_empty
    is_canonical_uuid_v4 is_canonical_timestamp exact_fields field integer_in_range is_command_error
    is_fatal_top_level_error validate_response validate_ready may_be_parsed strict_json find_session
    erase_session find_route emplace_route set_phase observe_session try_submit drop_expired pick
    choose_command read_pipes handle_record drain_lines send_command begin_start spawn_worker
    perform run
sent_request-awaits = λ e. cc

apply_response_iff_example :
    ((validate_response sent_request.pending_kind queued_record sent_request.pending_request).valid
      ≡ true)
    ↔ ((s : Impl) × (apply_response 70 sent_request.pending_kind sent_request.pending_request
            queued_record sent_request.impl
          ≡ some s))
apply_response_iff_example =
    apply_response_iff 70 queued_record sent_request (run world parser sending start_system).held
      (run-start-IsSound world parser sending sending-AllFresh) sent_request-awaits

run-IsShut_example :
    IsShut (run world parser calls shut).bridge
    × ((early : Status) (q : Submission)
        → (try_submit early q (run world parser calls shut).bridge.impl).1 ≢ admitted)
run-IsShut_example = run-IsShut world parser calls shut (refl, refl)

deliver-IsFair_example :
    All (IsFair 100 delivery awaiting) (deliver world 100 delivery awaiting).1
    × (length (deliver world 100 delivery awaiting).1 ≤ 1)
    × ((key : Bytes)
        → find_route key (deliver world 100 delivery awaiting).0.routes
          ≡ (if bytes_eq request key then none else find_route key awaiting.routes))
deliver-IsFair_example = deliver-IsFair world 100 delivery awaiting

-- The answer is whispered.
deliver_run :
    (deliver world 100 delivery awaiting).1 ≡ record { to = 7; text = codes "Well met!" } ∷ []
unfolding deliver evidence whisper_if same find_route find_session validate_delivery_evidence
    bytes_eq bytes_lt is_canonical_uuid_v4 uuid_digits stamp_digits number_from days_of is_date_time
    is_canonical_timestamp lead continued is_allowed finish_scalar after_lead decode_scalar
    decode_from decode_utf8 is_wide_whitespace is_terminator sanitized_from
    is_canonical_sanitized_text
deliver_run = refl

completion_accepted : validate_completion completion_record request ≡ some answer
unfolding bytes_eq bytes_lt is_canonical_uuid_v4 uuid_digits stamp_digits number_from days_of
    is_date_time is_canonical_timestamp lead continued is_allowed finish_scalar after_lead
    decode_scalar decode_from decode_utf8 is_wide_whitespace is_terminator sanitized_from
    is_canonical_sanitized_text find_member exact_fields field integer_in_range completion_shape
    ready_allows stored validate_completion
completion_accepted = refl

validate_completion-evidence_example : validate_delivery_evidence waiting_route answer 100 ≡ true
validate_completion-evidence_example =
    validate_completion-evidence completion_record request answer waiting_route 100
      completion_accepted (unfold bytes_eq in refl) refl refl (omega arith)

is_canonical_sanitized_text_iff_example :
    (is_canonical_sanitized_text (codes "Well met!") ≡ true)
    ↔ ((cs : List ℕ) × (codes "Well met!" ≡ encode_all cs) × IsSpoken cs)
is_canonical_sanitized_text_iff_example = is_canonical_sanitized_text_iff (codes "Well met!")

decode_utf8_iff_example : (decode_utf8 true (0xe2 ∷ 0x80 ∷ 0xa6 ∷ []) ≡ some 1) ↔ (
    (cs : List ℕ) × (0xe2 ∷ 0x80 ∷ 0xa6 ∷ [] ≡ encode_all cs) × AllPass true cs × (1 ≡ length cs))
decode_utf8_iff_example = decode_utf8_iff true (0xe2 ∷ 0x80 ∷ 0xa6 ∷ []) 1

is_canonical_timestamp_iff_example : (is_canonical_timestamp stamp ≡ true) ↔ (
    (seconds : ℕ) × (ms : ℕ) × (stamp ≡ put_utc (civil seconds) ms)
    × ((civil seconds).year < 10000)
    × (ms < 1000))
is_canonical_timestamp_iff_example = is_canonical_timestamp_iff stamp

printed-IsMoment : (ms : ℕ) → ms < 1000 → IsMoment printed ms
unfolding month_length
printed-IsMoment ms h = record {
  year_from_one = omega arith;
  year_of_four = omega arith;
  month_from_one = omega arith;
  month_of_year = omega arith;
  day_from_one = omega arith;
  day_of_month = omega arith;
  hour_of_day = omega arith;
  minute_of_hour = omega arith;
  second_of_minute = omega arith;
  fraction = h;
}

bytes_lt-put_utc_example :
    bytes_lt (put_utc printed 7) (put_utc printed 80) ≡ earlier printed 7 printed 80
bytes_lt-put_utc_example =
    bytes_lt-put_utc printed printed 7 80 (printed-IsMoment 7 (omega arith))
      (printed-IsMoment 80 (omega arith))

-- The second day of 1970, and the leap day of 2000.
second_day : (gm_time (86400123 / 1000)).year < 10000
unfolding date_of year_from month_from month_length
second_day = omega arith

leap_day_of_2000 :
    gm_time 951782400
    ≡ record { year = 2000; month = 2; day = 29; hour = 0; minute = 0; second = 0 }
unfolding date_of year_from month_from month_length
leap_day_of_2000 = refl

format_utc-canonical_example : is_canonical_timestamp (format_utc 86400123) ≡ true
format_utc-canonical_example = format_utc-canonical 86400123 second_day

abbrev drawn : Bytes
drawn = 255 ∷ 1 ∷ 2 ∷ 3 ∷ 4 ∷ 5 ∷ 96 ∷ 7 ∷ 255 ∷ 9 ∷ 10 ∷ 11 ∷ 12 ∷ 13 ∷ 14 ∷ 15 ∷ []

drawn-AreBytes : All (λ b. b < 256) drawn
drawn-AreBytes = ground arith

new_uuid_v4-canonical_example : is_canonical_uuid_v4 (new_uuid_v4 drawn) ≡ true
new_uuid_v4-canonical_example = new_uuid_v4-canonical drawn refl drawn-AreBytes

abbrev two_lines : Bridge
two_lines = record sent_request { stdout_buffer = codes "ok\nr\nrest" }

drain_lines-IsDrained_example : IsDrained (drain_lines 9 parser 70 two_lines)
drain_lines-IsDrained_example = drain_lines-IsDrained 9 parser 70 two_lines (omega arith)

-- A parser that calls back for a value of its own.
abbrev tree_parser : Parser
tree_parser = record { parse = λ line. some (events_of 0 queued_record, queued_record) }

strict_json_iff_example : (strict_json tree_parser (codes "r") ≡ some queued_record) ↔ (
    (may_be_parsed (codes "r") ≡ true)
    × (is_strict 0 queued_record ≡ true)
    × (is_object queued_record ≡ true))
strict_json_iff_example = strict_json_iff tree_parser (codes "r") queued_record refl

found_consuming : find_route request being_consumed.routes ≡ some consumed_route
unfolding find_route bytes_eq
found_consuming = refl

both-IsPresent : IsPresent consumed_route being_consumed
unfolding find_session
both-IsPresent = record {
  bot_here = refl;
  bot_active = refl;
  target_here = refl;
  target_active = refl;
}

-- The disposition is what the record says.
consumed_disposition_run : validate_response consume consumed_record request ≡ consumed_disposition
unfolding validate_response is_command_error exact_fields find_member bytes_eq field validate_status
    status_shape state_allows error_allows_attempt is_canonical_uuid_v4 uuid_digits integer_in_range
    is_canonical_timestamp stamp_digits number_from days_of is_date_time bytes_lt
    validate_completion completion_shape ready_allows stored is_canonical_sanitized_text decode_utf8
    decode_from decode_scalar after_lead lead continued finish_scalar is_allowed is_terminator
    is_wide_whitespace sanitized_from
consumed_disposition_run = refl

ready_outcome : bytes_eq answer.outcome (codes "ready") ≡ true
unfolding bytes_eq
ready_outcome = refl

being_consumed-Kept : Kept being_consumed []
being_consumed-Kept = record {
  ascending = (tt, tt);
  few = omega arith;
  few_deliveries = omega arith;
  settled = tt;
  settled_held = tt;
}

update_world-apply_response_example :
    (t : Impl) × (apply_response 90 consume request consumed_record being_consumed ≡ some t)
    × ((update_world world (λ i. 100 + i) t).1
        ≡ (update_world world (λ i. 100 + i) being_consumed).1
          ++ record {
            to = 7;
            text = (validate_response consume consumed_record request).completion.text;
          }
            ∷ [])
update_world-apply_response_example =
    update_world-apply_response world (λ i. 100 + i) 90 consumed_record consumed_route
      being_consumed [] being_consumed-Kept found_consuming refl refl
      (ap (λ d. d.consumed) consumed_disposition_run)
      (ap (λ d. bytes_eq d.completion.outcome (codes "ready")) consumed_disposition_run
        ∙ ready_outcome)
      (omega arith) (omega arith) (omega arith) both-IsPresent refl
