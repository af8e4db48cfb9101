-- ===== src/Bridge/Responses.antt =====
-- ApplyResponse.
use twow_repo.Base.{
  ℕ, Bool, true, false, not, ◌&&◌, ◌||◌, [], ◌∷◌, ◌++◌, Option, none, some, ltb, if◌then◌else◌,
  Bytes, codes, bytes_eq, length,
}
use twow_repo.Wire.Json.{Json}
use twow_repo.Bridge.Messages.{field, is_text}
use twow_repo.Bridge.Messages.Dispositions.{
  CommandKind, nothing, submit, status, consume, metrics, shutdown, Disposition, validate_response,
}
use twow_repo.Bridge.State.{
  Phase, accepted, terminal, delivery_pending, Route, find_route, set_phase, Impl, latch_ledger,
  retire_route,
}
use twow_repo.Bridge.Commands.{completion_capacity}

abbrev pub with_phase : Bytes → Phase → Impl → Impl
with_phase id phase s = record s { routes = set_phase id phase s.routes }

abbrev pub phase_of : Disposition → Phase
phase_of d = if d.terminal then terminal else accepted

unfoldable pub submit_applied : Route → Disposition → Json → Impl → Impl
submit_applied route d value s =
    if is_text (field value (codes "code")) (codes "identity_mismatch")
    then retire_route route.request_id s
    else with_phase route.request_id (phase_of d) s

unfoldable pub status_applied : Route → Disposition → Json → Impl → Impl
status_applied route d value s =
    if not (is_text (field value (codes "code")) (codes "ok"))
    then retire_route route.request_id s
    else if bytes_eq d.status_state (codes "consumed")
    then retire_route route.request_id s
    else with_phase route.request_id (phase_of d) s

-- The delivery takes a copy of the route as it was found.
unfoldable pub consume_applied : ℕ → Route → Disposition → Json → Impl → Impl
consume_applied now route d value s =
    if d.consumed
    then (if bytes_eq d.completion.outcome (codes "ready")
          && ltb now route.deadline
          && ltb (length s.deliveries) completion_capacity
        then record (with_phase route.request_id delivery_pending s) {
          deliveries = s.deliveries ++ record { route = route; completion = d.completion } ∷ [];
        }
        else retire_route route.request_id s)
    else if d.already_consumed || not (is_text (field value (codes "code")) (codes "not_ready"))
    then retire_route route.request_id s
    else with_phase route.request_id accepted s

unfoldable pub route_applied : ℕ → CommandKind → Route → Disposition → Json → Impl → Impl
unfolding submit_applied status_applied consume_applied
route_applied now submit route d value s = submit_applied route d value s
route_applied now status route d value s = status_applied route d value s
route_applied now consume route d value s = consume_applied now route d value s
route_applied now metrics route d value s = s
route_applied now shutdown route d value s = s
route_applied now nothing route d value s = s

-- With the route that the look-up gave; `none` is `false`, which closes the bridge.
unfoldable pub found_applied :
    ℕ → CommandKind → Option Route → Disposition → Json → Impl → Option Impl
unfolding route_applied
found_applied now kind none d value s = none
found_applied now kind (some route) d value s =
    if d.ledger_full
    then some (latch_ledger (retire_route route.request_id s))
    else some (route_applied now kind route d value s)

abbrev pub is_shutdown : CommandKind → Bool
is_shutdown shutdown = true
is_shutdown _ = false

unfoldable pub apply_valid : ℕ → CommandKind → Bytes → Disposition → Json → Impl → Option Impl
unfolding found_applied
apply_valid now kind id d value s =
    if not d.valid
    then none
    else if is_shutdown kind
    then some (record s { shutdown_acknowledged = true })
    else found_applied now kind (find_route id s.routes) d value s

unfoldable pub apply_response : ℕ → CommandKind → Bytes → Json → Impl → Option Impl
apply_response now kind id value s =
    apply_valid now kind id (validate_response kind value id) value s
