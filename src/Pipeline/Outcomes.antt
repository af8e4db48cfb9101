-- ===== src/Pipeline/Outcomes.antt =====
-- `StoreOutcome` and `RecordOutcome`: the bounded queue of what became of a bot's intents.
pub mod Bounds
use twow_repo.Base.{
  ℕ, Bool, true, false, List, [], ◌∷◌, ◌++◌, Option, none, some, leb, length, if◌then◌else◌, Bytes,
  is_empty,
}
use twow_repo.Base.Int.{ℤ}
use twow_repo.Wire.Types.{IntentOutcome}
use twow_repo.Pipeline.State.{BotPlanState, World, if_found, find_state, put_state, counter_up}

abbrev pub max_queued_outcomes : ℕ
max_queued_outcomes = 4

-- The `while`: the oldest go until there is room, and each is counted.
unfoldable pub make_room : List IntentOutcome → ℕ → List IntentOutcome × ℕ
make_room [] dropped = ([], dropped)
make_room (o ∷ os) dropped =
    let rest = make_room os (counter_up dropped) in
    if leb max_queued_outcomes (length (o ∷ os)) then rest else (o ∷ os, dropped)

-- The entry for an outcome, `now` being `NowUnixMs()`.
abbrev pub outcome_of : ℤ → Bytes → Bytes → Bytes → Bytes → Bytes → IntentOutcome
outcome_of now intent_id kind result reason poi_id = record {
  intent_id = intent_id;
  kind = kind;
  result = result;
  reason = reason;
  issued_at_ms = now;
  poi_id = poi_id;
}

unfoldable pub store_outcome :
    ℤ → BotPlanState → Bytes → Bytes → Bytes → Bytes → Bytes → BotPlanState
store_outcome now s intent_id kind result reason poi_id =
    if is_empty intent_id
    then s
    else (let room = make_room s.outcomes s.outcomes_dropped in
        record s {
          outcomes = room.0 ++ outcome_of now intent_id kind result reason poi_id ∷ [];
          outcomes_dropped = room.1;
        })

-- `RecordOutcome`, `none` being a null bot.
unfoldable pub record_outcome : ℤ → Option ℕ → Bytes → Bytes → Bytes → Bytes → Bytes → World → World
record_outcome now none intent_id kind result reason poi_id w = w
record_outcome now (some raw) intent_id kind result reason poi_id w =
    if is_empty intent_id
    then w
    else if_found (find_state raw w.states) w (λ s. record w {
      states = put_state raw (store_outcome now s intent_id kind result reason poi_id) w.states;
    })
