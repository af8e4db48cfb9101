-- ===== src/Examples/Client.antt =====
-- A parser of three lines, a few sessions, and the calls that bring the client of the bridge up.
use twow_repo.Base.{true, false, List, [], ◌∷◌, ◌++◌, none, some, Bytes, codes}
use twow_repo.Base.Int.{pos}
use twow_repo.Wire.Json.{Json, null, boolean, integer, string, object, done, member}
use twow_repo.Bridge.Messages.{model_name}
use twow_repo.Bridge.Messages.Strict.{Parser, object_start, key, object_end, other}
use twow_repo.Bridge.Messages.Statuses.{Completion}
use twow_repo.Bridge.Messages.Dispositions.{Disposition}
use twow_repo.Bridge.State.{consuming}
use twow_repo.Bridge.State.{
  ready, ledger_exhausted, initial, Impl, Fingerprint, Route, Delivery, delivery_pending,
}
use twow_repo.Bridge.Admission.{Submission}
use twow_repo.Bridge.Whispers.{World}
use twow_repo.Bridge.Worker.{complete, Writing}
use twow_repo.Bridge.Calendar.{Tm}
use twow_repo.Bridge.Runs.{
  System, start_system, Event, start, spawns, observe, submits, reads, drains, sends,
}

abbrev pub stamp : Bytes
stamp = codes "2026-08-30T19:49:19.000Z"

abbrev pub request : Bytes
request = codes "00000000-0000-4000-8000-000000000000"

abbrev pub ready_record : Json
ready_record = object (
    member (codes "code") (string (codes "ready")) (
      member (codes "mode") (string (codes "server_free_ndjson")) (
        member (codes "active_limit") (integer (pos 1)) (
          member (codes "waiting_capacity") (integer (pos 2)) (
            member (codes "ledger_capacity") (integer (pos 64)) (
              member (codes "bot_guid") (integer (pos 18281))
                (member (codes "model") (string model_name) done)))))))

abbrev pub queued_record : Json
queued_record = object (
    member (codes "accepted") (boolean true) (
      member (codes "code") (string (codes "queued")) (
        member (codes "status")
          (object (
            member (codes "schema_version") (integer (pos 1)) (
              member (codes "request_id") (string request) (
                member (codes "bot_guid") (integer (pos 18281)) (
                  member (codes "state") (string (codes "queued")) (
                    member (codes "queued_utc") (string stamp) (
                      member (codes "updated_utc") (string stamp) (
                        member (codes "attempt_count") (integer (pos 0))
                          (member (codes "error_code") null done)))))))))
          done)))

abbrev pub parser : Parser
parser = record {
  parse = λ line. elim line [
    | [] ↦ none
    | c ∷ cs ↦ elim cs [
      | [] ↦ some ((0, object_start) ∷ (0, object_end) ∷ [], ready_record)
      | d ∷ ds ↦ some (
        (0, object_start) ∷ (1, key (codes "code")) ∷ (1, other) ∷ (0, object_end) ∷ [],
        queued_record,
      )
    ]
  ];
}

abbrev pub world : World
world = record { players_match = λ d bot target. true }

abbrev pub bot_session : Fingerprint
bot_session = record {
  guid = 18281;
  account_id = 4;
  login_time = 100;
  generation = 1;
  name = codes "Borin";
  active = true;
}

abbrev pub target_session : Fingerprint
target_session = record {
  guid = 7;
  account_id = 5;
  login_time = 200;
  generation = 2;
  name = codes "Anna";
  active = true;
}

abbrev pub submission : Submission
submission = record {
  bot = 18281;
  target = 7;
  target_name = codes "Anna";
  message = codes "hi";
  wall = 1000;
  now = 50;
  uuid = request;
}

abbrev pub writing : Writing
writing = record { too_long = false; result = complete; force_stopped = false; after = 60 }

-- Up, a request admitted and sent; and accepted.
abbrev pub sending : List Event
sending =
    start
    ∷ spawns 40
    ∷ observe 18281 4 100 (codes "Borin")
    ∷ observe 7 5 200 (codes "Anna")
    ∷ reads (codes "r\n") []
    ∷ drains 30
    ∷ submits ready submission
    ∷ sends 60 writing
    ∷ []

abbrev pub calls : List Event
calls = sending ++ reads (codes "ok\n") [] ∷ drains 70 ∷ []

abbrev pub waiting_route : Route
waiting_route = record {
  request_id = request;
  bot = 18281;
  target = 7;
  target_name = codes "Anna";
  message = codes "hi";
  bot_session = bot_session;
  target_session = target_session;
  created_utc = stamp;
  expires_utc = stamp;
  deadline = 45050;
  phase = delivery_pending;
}

abbrev pub answer : Completion
answer = record {
  request_id = request;
  bot = 18281;
  outcome = codes "ready";
  model = model_name;
  attempt_count = 1;
  started_utc = stamp;
  completed_utc = stamp;
  text = codes "Well met!";
  error_code = [];
  error_is_null = true;
  raw_response_bytes = 90;
  raw_response_bytes_is_null = false;
}

abbrev pub delivery : Delivery
delivery = record { route = waiting_route; completion = answer }

abbrev pub completion_record : Json
completion_record = object (
    member (codes "schema_version") (integer (pos 1)) (
      member (codes "request_id") (string request) (
        member (codes "bot_guid") (integer (pos 18281)) (
          member (codes "outcome") (string (codes "ready")) (
            member (codes "model") (string model_name) (
              member (codes "attempt_count") (integer (pos 1)) (
                member (codes "started_utc") (string stamp) (
                  member (codes "completed_utc") (string stamp) (
                    member (codes "text") (string (codes "Well met!")) (
                      member (codes "error_code") null
                        (member (codes "raw_response_bytes") (integer (pos 90)) done)))))))))))

-- With an answer on its way, and with the ledger full.
abbrev pub awaiting : Impl
awaiting = record initial {
  status = ready;
  sessions = (7, target_session) ∷ (18281, bot_session) ∷ [];
  routes = waiting_route ∷ [];
}

abbrev pub shut : System
shut = record {
  bridge = record start_system.bridge {
    impl = record awaiting { status = ledger_exhausted };
    is_up = true;
    running = true;
  };
  held = [];
}

abbrev pub printed : Tm
printed = record { year = 2026; month = 8; day = 30; hour = 19; minute = 49; second = 19 }

-- What the child answers to the command that consumes the request.
abbrev pub consumed_record : Json
consumed_record = object (
    member (codes "code") (string (codes "consumed")) (
      member (codes "status")
        (object (
          member (codes "schema_version") (integer (pos 1)) (
            member (codes "request_id") (string request) (
              member (codes "bot_guid") (integer (pos 18281)) (
                member (codes "state") (string (codes "consumed")) (
                  member (codes "queued_utc") (string stamp) (
                    member (codes "updated_utc") (string stamp) (
                      member (codes "attempt_count") (integer (pos 1))
                        (member (codes "error_code") null done)))))))))
        (member (codes "completion") completion_record done)))

abbrev pub consumed_disposition : Disposition
consumed_disposition = record {
  valid = true;
  ledger_full = false;
  terminal = false;
  consumed = true;
  already_consumed = false;
  status_state = codes "consumed";
  completion = answer;
}

abbrev pub consumed_route : Route
consumed_route = record waiting_route { phase = consuming }

abbrev pub being_consumed : Impl
being_consumed = record awaiting { routes = consumed_route ∷ [] }
