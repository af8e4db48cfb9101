-- ===== src/Pipeline/Travel.antt =====
-- `NoteTravelStarted`, `ObserveActiveTravel` and `Forget`: the errand that a bot is on, and the count
-- of the bots that are on one.
pub mod Observed
use twow_repo.Base.{
  ℕ, ◌*◌, Bool, true, false, not, ◌&&◌, List, [], ◌∷◌, Option, none, some, ◌==◌, if◌then◌else◌,
  Bytes, codes, bytes_eq, is_empty,
}
use twow_repo.Base.Int.{ℤ}
use twow_repo.Wire.Types.{Snapshot}
use twow_repo.Wire.Vocabulary.{
  has_arrival_action, intent_vendor_sell, intent_repair, intent_turn_in_quest, intent_pick_quest,
  intent_visit_trainer,
}
use twow_repo.Pipeline.Clock.{add32, elapsed}
use twow_repo.Pipeline.State.{
  BotPlanState, PendingBatch, World, is_standing, if_found, find_state, put_state, erase_state,
  counter_up, counter_down,
}
use twow_repo.Pipeline.Outcomes.{store_outcome}

abbrev pub active_travel_timeout_ms : ℕ
active_travel_timeout_ms = 10 * 60 * 1000

unfoldable pub start_travel : ℕ → Bytes → Bytes → Bytes → ℕ → BotPlanState → BotPlanState
start_travel now intent_id kind poi_id destination s = record s {
  has_active_travel = true;
  active_intent_id = intent_id;
  active_kind = kind;
  active_poi_id = poi_id;
  active_destination = destination;
  active_travel_at_ms = now;
}

-- `NoteTravelStarted`; `now` is `WorldTimer::getMSTime()`.
unfoldable pub note_travel_started : ℕ → Option ℕ → Bytes → Bytes → Bytes → ℕ → World → World
unfolding start_travel
note_travel_started now none intent_id kind poi_id destination w = w
note_travel_started now (some raw) intent_id kind poi_id destination w =
    if is_empty intent_id
    then w
    else if_found (find_state raw w.states) w (λ s. record w {
      active_travels =
          if s.has_active_travel then w.active_travels else counter_up w.active_travels;
      states = put_state raw (start_travel now intent_id kind poi_id destination s) w.states;
    })

-- The statuses that the `switch` names; `other` is the rest.
pub data TravelStatus : Type 0 where
  work : TravelStatus
  cooldown : TravelStatus
  expired : TravelStatus
  other : TravelStatus

-- What the value "travel target" gives: a null pointer, or a destination and a status.
abbrev pub TravelTarget : Type 0
TravelTarget = Option (ℕ × TravelStatus)

-- `DoSpecificAction` of the AI: an action's name, the event's source and parameter.
abbrev pub DoAction : Type 0
DoAction = Bytes → Bytes → Bytes → Bool

-- `PerformArrivalAction` for a bot and an AI that are not null: whether it was done, and `reason`.
unfoldable pub perform_arrival_action : DoAction → Bytes → Bool × Bytes
perform_arrival_action act kind =
    if bytes_eq kind intent_vendor_sell
    then (act (codes "sell") (codes "rpg action") (codes "vendor"), [])
    else if bytes_eq kind intent_repair
    then (act (codes "repair") [] [], [])
    else if bytes_eq kind intent_turn_in_quest
    then (act (codes "talk to quest giver") [] [], [])
    else if bytes_eq kind intent_pick_quest
    then (act (codes "accept all quests") [] [], [])
    else if bytes_eq kind intent_visit_trainer
    then (act (codes "trainer") (codes "rpg action") (codes "learn"), [])
    else (false, codes "unsupported_kind")

-- `result`, `reason` and `arrived` after the look at the target; `none` is a null `result`.
pub record Ending : Type 0 where
  pub result : Option Bytes
  pub reason : Bytes
  pub arrived : Bool

unfoldable pub seen_status : TravelStatus → Ending
seen_status work = record { result = some (codes "completed"); reason = []; arrived = true }
seen_status cooldown = record { result = some (codes "completed"); reason = []; arrived = true }
seen_status expired = record {
  result = some (codes "failed");
  reason = codes "unreachable";
  arrived = false;
}
seen_status other = record { result = none; reason = []; arrived = false }

abbrev pub superseded : Ending
superseded = record { result = some (codes "superseded"); reason = []; arrived = false }

unfoldable pub seen_target : ℕ → TravelTarget → Ending
unfolding seen_status
seen_target wanted none = superseded
seen_target wanted (some (destination, status)) =
    if not (destination == wanted) then superseded else seen_status status

-- A travel that has no ending yet gets one from the timeout.
unfoldable pub timed_out : ℕ → ℕ → Ending → Ending
timed_out now started_at e = elim e.result [
  | some r ↦ e
  | none ↦
      if elapsed now (add32 started_at active_travel_timeout_ms)
      then record e { result = some (codes "superseded"); reason = [] }
      else e
]

-- The action on arrival, and the failure that its refusal is.
unfoldable pub after_action : DoAction → Bytes → Ending → Ending
unfolding perform_arrival_action
after_action act kind e =
    if not (e.arrived && has_arrival_action kind)
    then e
    else if (perform_arrival_action act kind).0
    then e
    else record e {
      result = some (codes "failed");
      reason =
          if is_empty (perform_arrival_action act kind).1
          then codes "action_refused"
          else (perform_arrival_action act kind).1;
    }

-- The travel that a bot was on is over, with this result.
unfoldable pub stop_travel : ℤ → Bytes → Bytes → BotPlanState → BotPlanState
stop_travel now result reason s =
    record (store_outcome now s s.active_intent_id s.active_kind result reason s.active_poi_id) {
      has_active_travel = false;
      active_destination = 0;
    }

-- The second critical section, on what the world is by then.
unfoldable pub end_travel : ℤ → ℕ → Bytes → Bytes → World → World
unfolding stop_travel
end_travel now raw result reason w = if_found (find_state raw w.states) w (λ s.
    if not s.has_active_travel then w else record w {
      active_travels = counter_down w.active_travels;
      states = put_state raw (stop_travel now result reason s) w.states;
    })

-- What `ObserveActiveTravel` decides from the state that it copies.
unfoldable pub observe : DoAction → ℕ → TravelTarget → BotPlanState → Ending
unfolding seen_target timed_out after_action
observe act now target s =
    after_action act s.active_kind
      (timed_out now s.active_travel_at_ms (seen_target s.active_destination target))

-- `ObserveActiveTravel` for a bot in the world; `later` is what the lock finds when it is taken again.
unfoldable pub observe_active_travel : DoAction → ℕ → ℤ → ℕ → TravelTarget → World → World → World
unfolding observe end_travel
observe_active_travel act now unix raw target w later =
    if w.active_travels == 0
    then later
    else if_found (find_state raw w.states) later (λ s.
      if not s.has_active_travel then later else elim (observe act now target s).result [
        | none ↦ later
        | some result ↦ end_travel unix raw result (observe act now target s).reason later
      ])

-- The first guid that is `raw` goes, with the snapshot at its place.
unfoldable pub remove_guid : ℕ → List ℕ → List Snapshot → List ℕ × List Snapshot
remove_guid raw (g ∷ gs) (s ∷ ss) =
    let rest = remove_guid raw gs ss in if g == raw then (gs, ss) else (g ∷ rest.0, s ∷ rest.1)
remove_guid raw gs ss = (gs, ss)

unfoldable pub without_guid : ℕ → Option PendingBatch → Option PendingBatch
unfolding remove_guid
without_guid raw none = none
without_guid raw (some b) = some (record b {
  guids = (remove_guid raw b.guids b.snapshots).0;
  snapshots = (remove_guid raw b.guids b.snapshots).1;
})

-- The counters that a bot leaves behind.
unfoldable pub uncount : Option BotPlanState → World → World
uncount none w = w
uncount (some s) w = record w {
  active_travels = if s.has_active_travel then counter_down w.active_travels else w.active_travels;
  standing_bots = if is_standing s then counter_down w.standing_bots else w.standing_bots;
}

-- `Forget`.
unfoldable pub forget : ℕ → World → World
unfolding without_guid uncount
forget raw w = record (uncount (find_state raw w.states) w) {
  states = erase_state raw w.states;
  pending_batch = without_guid raw w.pending_batch;
}
