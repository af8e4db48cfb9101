-- ===== src/Wire/Types.antt =====
-- The structs of BotBrainWire.h. Unsigned fields are numbers below their width, signed ones ℤ.
use twow_repo.Base.{ℕ, Bool, false, ◌||◌, List, [], ◌==◌, Bytes}
use twow_repo.Base.Int.{ℤ, pos}
use twow_repo.Wire.Double.{Double, zero_double}

pub record StrategyChange : Type 0 where
  pub name : Bytes
  pub state : Bytes
  pub enable : Bool

pub record BotId : Type 0 where
  pub realm : ℕ
  pub guid : ℕ
  pub uuid : Bytes

unfoldable pub is_zero_bot : BotId → Bool
is_zero_bot b = b.realm == 0 || b.guid == 0

pub record Position : Type 0 where
  pub map_id : ℕ
  pub x : Double
  pub y : Double
  pub z : Double
  pub orientation : Double
  pub zone_id : ℕ
  pub area_id : ℕ
  pub instance_id : ℕ

pub record Vitals : Type 0 where
  pub health_pct : Double
  pub has_power_pct : Bool
  pub power_pct : Double
  pub is_dead : Bool
  pub in_combat : Bool
  pub is_resting : Bool
  pub is_mounted : Bool
  pub has_durability_pct : Bool
  pub durability_pct : Double

pub record Character : Type 0 where
  pub name : Bytes
  pub level : ℕ
  pub cls : ℕ
  pub race : ℕ
  pub faction : Bytes
  pub money : ℕ
  pub free_bag_slots : ℕ
  pub trait_keys : List Bytes

pub record QuestEntry : Type 0 where
  pub quest_id : ℕ
  pub status : Bytes
  pub objectives_done : ℕ
  pub objectives_total : ℕ
  pub required_level : ℕ
  pub quest_level : ℕ

pub record PointOfInterest : Type 0 where
  pub id : Bytes
  pub kind : Bytes
  pub position : Position
  pub has_distance_yards : Bool
  pub distance_yards : Double
  pub related_quest_id : ℕ
  pub tags : List Bytes

pub record Surroundings : Type 0 where
  pub hostile_count : ℕ
  pub friendly_player_count : ℕ
  pub friendly_bot_count : ℕ
  pub has_radius_yards : Bool
  pub radius_yards : Double
  pub has_nearest_hostile_yards : Bool
  pub nearest_hostile_yards : Double
  pub group_size : ℕ
  pub is_group_leader : Bool

pub record IntentOutcome : Type 0 where
  pub intent_id : Bytes
  pub kind : Bytes
  pub result : Bytes
  pub reason : Bytes
  pub issued_at_ms : ℤ
  pub poi_id : Bytes

pub record Snapshot : Type 0 where
  pub bot : BotId
  pub chr : Character
  pub position : Position
  pub vitals : Vitals
  pub around : Surroundings
  pub quests : List QuestEntry
  pub pois : List PointOfInterest
  pub has_last_outcome : Bool
  pub last_outcome : IntentOutcome
  pub observed_at_ms : ℤ
  pub hints : List Bytes

pub record PlanRequest : Type 0 where
  pub contract_version : Bytes
  pub request_id : Bytes
  pub sent_at_ms : ℤ
  pub deadline_ms : ℤ
  pub snapshots : List Snapshot

pub record Intent : Type 0 where
  pub bot : BotId
  pub intent_id : Bytes
  pub kind : Bytes
  pub has_travel : Bool
  pub travel_poi_id : Bytes
  pub has_stop_within_yards : Bool
  pub stop_within_yards : Double
  pub has_quest : Bool
  pub quest_id : ℕ
  pub strategies : List StrategyChange
  pub priority : ℤ
  pub confidence : Double
  pub expires_at_ms : ℤ
  pub source : Bytes
  pub rationale : Bytes

pub record PlanError : Type 0 where
  pub bot : BotId
  pub code : Bytes
  pub message : Bytes

pub record PlanResponse : Type 0 where
  pub contract_version : Bytes
  pub request_id : Bytes
  pub intents : List Intent
  pub errors : List PlanError
  pub plan_ms : ℤ
  pub degraded_reason : Bytes

pub record ContractInfo : Type 0 where
  pub version : Bytes
  pub supported_majors : List ℤ
  pub known_intent_kinds : List Bytes
  pub max_batch : ℤ

pub record DialogueRequest : Type 0 where
  pub contract_version : Bytes
  pub request_id : Bytes
  pub bot : BotId
  pub channel : Bytes
  pub speaker : Bytes
  pub speaker_name : Bytes
  pub message : Bytes
  pub trait_keys : List Bytes
  pub language : Bytes
  pub sent_at_ms : ℤ
  pub deadline_ms : ℤ
  pub allow_commands : Bool

pub record DialogueResponse : Type 0 where
  pub contract_version : Bytes
  pub request_id : Bytes
  pub bot : BotId
  pub spoke : Bool
  pub reply : Bytes
  pub reason : Bytes
  pub command : Bytes
  pub reply_ms : ℤ
  pub traits_applied : ℤ
  pub unknown_fields : ℤ

abbrev pub no_bot : BotId
no_bot = record { realm = 0; guid = 0; uuid = [] }

abbrev pub new_intent : Intent
new_intent = record {
  bot = no_bot;
  intent_id = [];
  kind = [];
  has_travel = false;
  travel_poi_id = [];
  has_stop_within_yards = false;
  stop_within_yards = zero_double;
  has_quest = false;
  quest_id = 0;
  strategies = [];
  priority = pos 0;
  confidence = zero_double;
  expires_at_ms = pos 0;
  source = [];
  rationale = [];
}
