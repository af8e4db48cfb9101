-- ===== src/Examples/World.antt =====
-- A bot of the pipeline, with room for an errand, and a world of that one bot.
use twow_repo.Base.{true, false, [], ◌∷◌, none, codes}
use twow_repo.Base.Int.{pos}
use twow_repo.Wire.Vocabulary.{intent_travel_to, intent_set_strategies}
use twow_repo.Wire.Types.{Intent, new_intent}
use twow_repo.Pipeline.State.{BotPlanState, awaiting_plan, World, new_state}
use twow_repo.Pipeline.Intents.{Clocks}

abbrev pub errand : Intent
errand = record new_intent {
  bot = record { realm = 1; guid = 7; uuid = [] };
  intent_id = codes "i1";
  kind = intent_travel_to;
  has_travel = true;
  travel_poi_id = codes "p0";
}

abbrev pub condition : Intent
condition = record errand { intent_id = codes "i2"; kind = intent_set_strategies }

abbrev pub sent_bot : BotPlanState
sent_bot = record new_state {
  phase = awaiting_plan;
  poi_table = record { id = codes "p0"; destination = 11; position = 12 } ∷ [];
  poi_table_at_ms = 5;
  has_intent = true;
  intent = errand;
}

abbrev pub clocks : Clocks
clocks = record { world_ms = 6; unix_ms = pos 0; stored_ms = pos 0 }

abbrev pub quiet_world : World
quiet_world = record {
  states = (7, sent_bot) ∷ [];
  active_travels = 0;
  standing_bots = 0;
  pending_batch = none;
  answers = [];
  max_batch = 2;
  admitted = true;
  shutting_down = false;
  handshake_attempt = none;
  next_handshake_ms = 0;
}
