-- ===== src/Bridge/Admission.antt =====
-- TrySubmit.
use twow_repo.Base.{
  ℕ, ◌+◌, Bool, true, false, not, ◌&&◌, ◌||◌, Option, none, some, leb, ◌==◌, if◌then◌else◌, Bytes,
  bytes_eq, is_empty, length,
}
use twow_repo.Bridge.Utf8.{decode_utf8, is_trim_empty}
use twow_repo.Bridge.Uuid.{is_canonical_uuid_v4}
use twow_repo.Bridge.Stamps.{format_utc}
use twow_repo.Bridge.Messages.{bot_guid}
use twow_repo.Bridge.State.{
  Status, is_ready, is_exhausted, Fingerprint, pending_submit, Route, Impl, find_session,
  emplace_route,
}

pub data SubmitResult : Type 0 where
  admitted locally_rejected locally_rejected_ledger_exhausted : SubmitResult

abbrev pub outstanding_route_capacity : ℕ
outstanding_route_capacity = 3

-- What a caller gives, and what the clocks and the generator give on the way.
pub record Submission : Type 0 where
  pub bot : ℕ
  pub target : ℕ
  pub target_name : Bytes
  pub message : Bytes
  pub wall : ℕ
  pub now : ℕ
  pub uuid : Bytes

decodes : Option ℕ → Bool
decodes none = false
decodes (some n) = true

-- The tests before the lock is taken.
unfoldable pub is_plausible : Submission → Bool
unfolding decodes
is_plausible q =
    q.bot == bot_guid
    && not (q.target == 0)
    && not (q.bot == q.target)
    && not (is_empty q.target_name)
    && not (is_trim_empty q.message)
    && leb (length q.message) 2048
    && decodes (decode_utf8 true q.message)

abbrev pub refusal : Status → SubmitResult
refusal state = if is_exhausted state then locally_rejected_ledger_exhausted else locally_rejected

unfoldable pub new_route : Submission → Fingerprint → Fingerprint → ℕ → Route
new_route q bot target ttl = record {
  request_id = q.uuid;
  bot = q.bot;
  target = q.target;
  target_name = q.target_name;
  message = q.message;
  bot_session = bot;
  target_session = target;
  created_utc = format_utc q.wall;
  expires_utc = format_utc (q.wall + ttl);
  deadline = q.now + ttl;
  phase = pending_submit;
}

-- With what the two look-ups of the sessions gave.
unfoldable pub admit :
    Submission → Option Fingerprint → Option Fingerprint → Impl → Impl × SubmitResult
unfolding new_route
admit q none target s = (s, locally_rejected)
admit q (some bot) none s = (s, locally_rejected)
admit q (some bot) (some target) s =
    if not bot.active || not target.active || not (bytes_eq target.name q.target_name)
    then (s, locally_rejected)
    else if not (is_canonical_uuid_v4 q.uuid)
    then (s, locally_rejected)
    else (
      record s { routes = emplace_route (new_route q bot target s.request_ttl) s.routes },
      admitted,
    )

-- `early` is the state as it was read before the lock.
unfoldable pub try_submit : Status → Submission → Impl → Impl × SubmitResult
unfolding is_plausible admit
try_submit early q s =
    if is_exhausted early
    then (s, locally_rejected_ledger_exhausted)
    else if not (is_ready early) || not (is_plausible q)
    then (s, locally_rejected)
    else if not (is_ready s.status) || leb outstanding_route_capacity (length s.routes)
    then (s, refusal s.status)
    else admit q (find_session q.bot s.sessions) (find_session q.target s.sessions) s
