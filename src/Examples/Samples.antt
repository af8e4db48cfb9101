-- ===== src/Examples/Samples.antt =====
-- A snapshot and two replies that the runs share.
use twow_repo.Base.{true, false, [], some, codes}
use twow_repo.Base.Int.{pos}
use twow_repo.Wire.Double.{zero_double, one_double}
use twow_repo.Wire.Json.{
  Json, boolean, integer, string, array, object, done, member, end, element, Library,
}
use twow_repo.Wire.Types.{BotId, Snapshot}

abbrev pub bot_seven : BotId
bot_seven = record { realm = 1; guid = 7; uuid = codes "u" }

abbrev pub snapshot : Snapshot
snapshot = record {
  bot = bot_seven;
  chr = record {
    name = codes "Borin";
    level = 12;
    cls = 5;
    race = 3;
    faction = codes "alliance";
    money = 100;
    free_bag_slots = 4;
    trait_keys = [];
  };
  position = record {
    map_id = 0;
    x = zero_double;
    y = zero_double;
    z = zero_double;
    orientation = zero_double;
    zone_id = 1;
    area_id = 0;
    instance_id = 0;
  };
  vitals = record {
    health_pct = one_double;
    has_power_pct = false;
    power_pct = zero_double;
    is_dead = false;
    in_combat = false;
    is_resting = false;
    is_mounted = false;
    has_durability_pct = false;
    durability_pct = zero_double;
  };
  around = record {
    hostile_count = 0;
    friendly_player_count = 0;
    friendly_bot_count = 0;
    has_radius_yards = false;
    radius_yards = zero_double;
    has_nearest_hostile_yards = false;
    nearest_hostile_yards = zero_double;
    group_size = 0;
    is_group_leader = false;
  };
  quests = [];
  pois = [];
  has_last_outcome = false;
  last_outcome = record {
    intent_id = [];
    kind = [];
    result = [];
    reason = [];
    issued_at_ms = pos 0;
    poi_id = [];
  };
  observed_at_ms = pos 1;
  hints = [];
}

abbrev pub bot_json : Json
bot_json =
    object (member (codes "realm") (integer (pos 1)) (member (codes "guid") (integer (pos 7)) done))

abbrev pub change_json : Json
change_json = object (
    member (codes "name") (string (codes "grind")) (
      member (codes "state") (string (codes "combat"))
        (member (codes "enable") (boolean true) done)))

abbrev pub intent_json : Json
intent_json = object (
    member (codes "bot") bot_json (
      member (codes "intent_id") (string (codes "i1"))
        (member (codes "kind") (string (codes "rest")) done)))

abbrev pub plan_json : Json
plan_json = object (member (codes "intents") (array (element intent_json end)) done)

abbrev pub dialogue_json : Json
dialogue_json = object (
    member (codes "spoke") (boolean true)
      (member (codes "reply") (string (codes "Well met.")) done))

-- A library whose parser finds one document in every body.
abbrev pub library_of : Json → Library
library_of doc = record {
  parse = λ body. some doc;
  write = λ v. [];
  double_of_int = λ z. zero_double;
}
