-- ===== src/Bridge/Commands.antt =====
-- SubmitCommand, KeyCommand and ChooseCommand.
use twow_repo.Base.{
  ℕ, ◌+◌, ◌%◌, Bool, true, false, not, ◌&&◌, List, [], ◌∷◌, Option, none, some, leb, ltb,
  if◌then◌else◌, Bytes, codes, is_empty, filter, map, length, get_or,
}
use twow_repo.Base.Int.{pos}
use twow_repo.Wire.Json.{Json, boolean, integer, string, object, done, member}
use twow_repo.Bridge.Messages.{bot_guid}
use twow_repo.Bridge.Messages.Dispositions.{CommandKind, submit, status, consume, shutdown}
use twow_repo.Bridge.State.{
  is_ready, is_exhausted, Phase, accepted, terminal, consuming, is_pending_submit, Route, Routes,
  set_phase, Impl,
}

abbrev pub completion_capacity : ℕ
completion_capacity = 3

abbrev pub status_poll_interval_ms : ℕ
status_poll_interval_ms = 100

-- A command, and the request that it is about; the id is empty for a shutdown.
pub record Command : Type 0 where
  pub kind : CommandKind
  pub id : Bytes
  pub body : Json

unfoldable pub submit_command : Route → Json
submit_command route = object (
    member (codes "command") (string (codes "submit")) (
      member (codes "request")
        (object (
          member (codes "schema_version") (integer (pos 1)) (
            member (codes "request_id") (string route.request_id) (
              member (codes "bot_guid") (integer (pos bot_guid)) (
                member (codes "created_utc") (string route.created_utc) (
                  member (codes "expires_utc") (string route.expires_utc)
                    (member (codes "message") (string route.message) done)))))))
        done))

unfoldable pub key_command : Bytes → Bytes → Json
key_command command id = object (
    member (codes "command") (string command) (
      member (codes "request_id") (string id)
        (member (codes "bot_guid") (integer (pos bot_guid)) done)))

abbrev pub shutdown_command : Json
shutdown_command = object (
    member (codes "command") (string (codes "shutdown"))
      (member (codes "drain") (boolean true) done))

abbrev pub is_consuming : Phase → Bool
is_consuming consuming = true
is_consuming _ = false

abbrev pub is_terminal : Phase → Bool
is_terminal terminal = true
is_terminal _ = false

abbrev pub is_accepted : Phase → Bool
is_accepted accepted = true
is_accepted _ = false

-- Routes past their deadline go, unless their answer is being fetched.
abbrev pub is_current : ℕ → Route → Bool
is_current now r = not (leb r.deadline now && not (is_consuming r.phase))

unfoldable pub drop_expired : ℕ → Routes → Routes
drop_expired now routes = filter (is_current now) routes

-- The loop over the routes: the first that is to be submitted or consumed.
unfoldable pub pick : Bool → Bool → Routes → Option Command
pick may_submit room [] = none
pick may_submit room (r ∷ rs) =
    let rest = pick may_submit room rs in
    if is_pending_submit r.phase && may_submit
    then some (record { kind = submit; id = r.request_id; body = submit_command r })
    else if is_terminal r.phase && room
    then some (record {
      kind = consume;
      id = r.request_id;
      body = key_command (codes "consume") r.request_id;
    })
    else rest

unfoldable pub accepted_ids : Routes → List Bytes
accepted_ids routes = map (λ r. r.request_id) (filter (λ r. is_accepted r.phase) routes)

abbrev pub room_for : Impl → Bool
room_for s = ltb (length s.deliveries) completion_capacity

-- The status poll: the accepted routes in turn.
unfoldable pub poll : ℕ → List Bytes → Impl → Impl × Option Command
poll now ids s =
    let cursor = s.poll_cursor % length ids in
    let id = get_or ids cursor [] in
    if ltb now s.next_poll then (s, none) else if is_empty ids then (s, none) else (
      record s { poll_cursor = cursor + 1; next_poll = now + status_poll_interval_ms },
      some (record { kind = status; id = id; body = key_command (codes "status") id }),
    )

-- A route that is to be consumed is marked at once.
unfoldable pub mark_picked : CommandKind → Bytes → Routes → Routes
mark_picked consume id routes = set_phase id consuming routes
mark_picked _ id routes = routes

unfoldable pub picked : ℕ → Option Command → Impl → Impl × Option Command
unfolding mark_picked
picked now none s = poll now (accepted_ids s.routes) s
picked now (some c) s = (record s { routes = mark_picked c.kind c.id s.routes }, some c)

-- After the expired routes are gone.
unfoldable pub choose_among : ℕ → Impl → Impl × Option Command
unfolding picked
choose_among now s =
    if s.shutdown_requested && not s.shutdown_sent
    then (
      record s { shutdown_sent = true },
      some (record { kind = shutdown; id = []; body = shutdown_command }),
    )
    else if not (is_ready s.status) && not (is_exhausted s.status)
    then (s, none)
    else picked now (pick (is_ready s.status) (room_for s) s.routes) s

unfoldable pub choose_command : ℕ → Impl → Impl × Option Command
unfolding choose_among
choose_command now s = choose_among now (record s { routes = drop_expired now s.routes })
