-- ===== src/Bridge/State.antt =====
-- The state of ExternalLLMBridgeService::Impl, with Route, Delivery and SessionFingerprint; Fail
-- and LatchLedger, which close admission; and the two maps. `m_routes` is kept in the order of its
-- keys, in which the code walks it. A time is a number of
-- milliseconds of the steady clock; a login time is compared only, and stands as its bit pattern.
pub mod Tables
pub mod Evidence
use twow_repo.Base.{
  ℕ, ◌+◌, ◌%◌, ◌^◌, Bool, true, false, not, ◌&&◌, ◌||◌, List, [], ◌∷◌, Option, none, some, leb, ltb,
  ◌==◌, if◌then◌else◌, Bytes, codes, bytes_eq, bytes_lt, is_empty, filter,
}
use twow_repo.Bridge.Utf8.{is_canonical_sanitized_text}
use twow_repo.Bridge.Uuid.{is_canonical_uuid_v4}
use twow_repo.Bridge.Stamps.{is_canonical_timestamp}
use twow_repo.Bridge.Messages.{bot_guid, model_name}
use twow_repo.Bridge.Messages.Statuses.{Completion}

pub data Status : Type 0 where
  disabled starting ready ledger_exhausted protocol_failed child_failed shutting_down stopped :
      Status

-- `==` on the enum.
abbrev pub is_ready : Status → Bool
is_ready ready = true
is_ready _ = false

abbrev pub is_exhausted : Status → Bool
is_exhausted ledger_exhausted = true
is_exhausted _ = false

pub record Fingerprint : Type 0 where
  pub guid : ℕ
  pub account_id : ℕ
  pub login_time : ℕ
  pub generation : ℕ
  pub name : Bytes
  pub active : Bool

pub data Phase : Type 0 where
  pending_submit accepted terminal consuming delivery_pending : Phase

pub record Route : Type 0 where
  pub request_id : Bytes
  pub bot : ℕ
  pub target : ℕ
  pub target_name : Bytes
  pub message : Bytes
  pub bot_session : Fingerprint
  pub target_session : Fingerprint
  pub created_utc : Bytes
  pub expires_utc : Bytes
  pub deadline : ℕ
  pub phase : Phase

pub record Delivery : Type 0 where
  pub route : Route
  pub completion : Completion

unfoldable pub validate_delivery_evidence : Route → Completion → ℕ → Bool
validate_delivery_evidence route completion now =
    ltb now route.deadline
    && is_canonical_uuid_v4 route.request_id
    && route.bot == bot_guid
    && bytes_eq completion.request_id route.request_id
    && completion.bot == route.bot
    && bytes_eq completion.outcome (codes "ready")
    && bytes_eq completion.model model_name
    && completion.attempt_count == 1
    && not (is_empty completion.started_utc)
    && is_canonical_timestamp completion.started_utc
    && is_canonical_timestamp completion.completed_utc
    && not (bytes_lt completion.completed_utc completion.started_utc)
    && completion.error_is_null
    && is_empty completion.error_code
    && not completion.raw_response_bytes_is_null
    && leb completion.raw_response_bytes 65536
    && is_canonical_sanitized_text completion.text

abbrev pub Sessions : Type 0
Sessions = List (ℕ × Fingerprint)

abbrev pub Routes : Type 0
Routes = List Route

-- `m_sessions.find`, and an erasure by key.
unfoldable pub find_session : ℕ → Sessions → Option Fingerprint
find_session guid [] = none
find_session guid ((k, f) ∷ rest) = if k == guid then some f else find_session guid rest

unfoldable pub erase_session : ℕ → Sessions → Sessions
erase_session guid sessions = filter (λ s. not (s.0 == guid)) sessions

-- `m_routes.find`, `emplace`, which does nothing where the key is taken, and `erase`. A route
-- stands under its own request id.
unfoldable pub find_route : Bytes → Routes → Option Route
find_route id [] = none
find_route id (r ∷ rs) = if bytes_eq r.request_id id then some r else find_route id rs

unfoldable pub emplace_route : Route → Routes → Routes
emplace_route route [] = route ∷ []
emplace_route route (r ∷ rs) =
    let rest = r ∷ emplace_route route rs in
    if bytes_eq r.request_id route.request_id
    then r ∷ rs
    else if bytes_lt route.request_id r.request_id
    then route ∷ r ∷ rs
    else rest

unfoldable pub erase_route : Bytes → Routes → Routes
erase_route id routes = filter (λ r. not (bytes_eq r.request_id id)) routes

-- A write to the phase of the route that `find` has found.
unfoldable pub set_phase : Bytes → Phase → Routes → Routes
set_phase id phase [] = []
set_phase id phase (r ∷ rs) =
    (if bytes_eq r.request_id id then record r { phase = phase } else r) ∷ set_phase id phase rs

pub record Impl : Type 0 where
  pub status : Status
  pub ledger_warning : Bool
  pub sessions : Sessions
  pub next_session_generation : ℕ
  pub routes : Routes
  pub deliveries : List Delivery
  pub stderr_ring : Bytes
  pub failure_reason : Bytes
  pub poll_cursor : ℕ
  pub next_poll : ℕ
  pub ready_deadline : ℕ
  pub shutdown_deadline : ℕ
  pub shutdown_requested : Bool
  pub shutdown_sent : Bool
  pub shutdown_acknowledged : Bool
  pub request_ttl : ℕ
  pub shutdown_timeout : ℕ

-- The members as they are initialised.
abbrev pub initial : Impl
initial = record {
  status = disabled;
  ledger_warning = false;
  sessions = [];
  next_session_generation = 0;
  routes = [];
  deliveries = [];
  stderr_ring = [];
  failure_reason = [];
  poll_cursor = 0;
  next_poll = 0;
  ready_deadline = 0;
  shutdown_deadline = 0;
  shutdown_requested = false;
  shutdown_sent = false;
  shutdown_acknowledged = false;
  request_ttl = 45000;
  shutdown_timeout = 40000;
}

-- A failure is not replaced, and neither is `Stopped`.
abbrev pub failed_status : Status → Status → Status
failed_status protocol_failed state = protocol_failed
failed_status child_failed state = child_failed
failed_status stopped state = stopped
failed_status _ state = state

-- `Fail`: the first reason stays.
unfoldable pub fail : Status → Bytes → Impl → Impl
fail state reason s = record s {
  status = failed_status s.status state;
  failure_reason = if is_empty s.failure_reason then reason else s.failure_reason;
}

abbrev pub is_pending_submit : Phase → Bool
is_pending_submit pending_submit = true
is_pending_submit _ = false

-- `LatchLedger`.
unfoldable pub latch_ledger : Impl → Impl
latch_ledger s =
    if not (is_ready s.status)
    then s
    else if s.ledger_warning
    then record s { status = ledger_exhausted }
    else record s {
      status = ledger_exhausted;
      ledger_warning = true;
      routes = filter (λ r. not (is_pending_submit r.phase)) s.routes;
    }

-- `ObserveSession`, `InvalidateSession` and `RetireRoute`. The generation is a 64-bit counter.
unfoldable pub observe_session : ℕ → ℕ → ℕ → Bytes → Impl → Impl
observe_session guid account login name s =
    let generation = (s.next_session_generation + 1) % 2 ^ 64 in
    record s {
      next_session_generation = generation;
      sessions =
          (
            guid,
            record {
              guid = guid;
              account_id = account;
              login_time = login;
              generation = generation;
              name = name;
              active = true;
            },
          )
          ∷ erase_session guid s.sessions;
    }

unfoldable pub invalidate_session : ℕ → Impl → Impl
invalidate_session guid s = record s { sessions = erase_session guid s.sessions }

unfoldable pub retire_route : Bytes → Impl → Impl
retire_route id s = record s { routes = erase_route id s.routes }
