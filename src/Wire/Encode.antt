-- ===== src/Wire/Encode.antt =====
-- `ValidateSnapshot`, and the requests as the JSON that the writer is driven to emit. A value
-- stands for the calls of the SAX writer in order; the bytes are the writer's.
pub mod ReadBack
use twow_repo.Base.{
  ℕ, Bool, true, false, not, ◌||◌, List, [], ◌∷◌, ◌++◌, map, ltb, ◌==◌, if◌then◌else◌, Bytes, codes,
  is_empty,
}
use twow_repo.Base.Int.{ℤ, pos, is_zero}
use twow_repo.Wire.Double.{Double, double_lt, zero_double, hundred_double}
use twow_repo.Wire.Json.{
  Json, boolean, integer, real, string, array, object, Members, done, member, of_list, Library,
  Result, ok, err,
}
use twow_repo.Wire.Types.{
  BotId, Position, Vitals, Character, QuestEntry, PointOfInterest, Surroundings, IntentOutcome,
  Snapshot, PlanRequest, DialogueRequest,
}

unfoldable pub validate_snapshot : Snapshot → Result (Unit {0})
validate_snapshot s =
    if s.bot.guid == 0
    then err (codes "snapshot has zero bot.guid")
    else if s.bot.realm == 0
    then err (codes "snapshot has zero bot.realm")
    else if s.chr.level == 0 || ltb 60 s.chr.level
    then err (codes "snapshot has level outside 1..60")
    else if double_lt s.vitals.health_pct zero_double
        || double_lt hundred_double s.vitals.health_pct
    then err (codes "snapshot has health_pct outside 0..100")
    else ok tt

-- Members in the order in which they are written.
abbrev pub Fields : Type 0
Fields = List (Bytes × Json)

abbrev pub members_of : Fields → Members
members_of [] = done
members_of ((k, v) ∷ fs) = member k v (members_of fs)

abbrev pub field : Bytes → Json → Fields
field key value = (key, value) ∷ []

abbrev pub uint : ℕ → Json
uint n = integer (pos n)

-- `WriteStrIfSet`, `WriteUintIfSet`, `WriteIntIfSet` and `WriteStringArrayIfSet`.
unfoldable pub str_if_set : Bytes → Bytes → Fields
str_if_set key value = if is_empty value then [] else field key (string value)

unfoldable pub uint_if_set : Bytes → ℕ → Fields
uint_if_set key value = if value == 0 then [] else field key (uint value)

unfoldable pub int_if_set : Bytes → ℤ → Fields
int_if_set key value = if is_zero value then [] else field key (integer value)

unfoldable pub string_array_if_set : Bytes → List Bytes → Fields
string_array_if_set key values =
    if is_empty values then [] else field key (array (of_list (map string values)))

unfoldable pub double_if : Bool → Bytes → Double → Fields
double_if has key value = if has then field key (real value) else []

-- `WriteBotId`.
unfoldable pub bot_id_json : BotId → Json
bot_id_json id = object (
    members_of (
      field (codes "realm") (uint id.realm)
      ++ (field (codes "guid") (uint id.guid) ++ str_if_set (codes "uuid") id.uuid)))

-- `WritePosition`.
unfoldable pub position_json : Position → Json
position_json p = object (
    members_of (
      field (codes "map_id") (uint p.map_id)
      ++ (field (codes "x") (real p.x)
          ++ (field (codes "y") (real p.y)
              ++ (field (codes "z") (real p.z)
                  ++ (field (codes "orientation") (real p.orientation)
                      ++ (uint_if_set (codes "zone_id") p.zone_id
                          ++ (uint_if_set (codes "area_id") p.area_id
                              ++ uint_if_set (codes "instance_id") p.instance_id))))))))

-- `WriteVitals`.
unfoldable pub vitals_json : Vitals → Json
vitals_json v = object (
    members_of (
      field (codes "health_pct") (real v.health_pct)
      ++ (double_if v.has_power_pct (codes "power_pct") v.power_pct
          ++ (field (codes "is_dead") (boolean v.is_dead)
              ++ (field (codes "in_combat") (boolean v.in_combat)
                  ++ (field (codes "is_resting") (boolean v.is_resting)
                      ++ (field (codes "is_mounted") (boolean v.is_mounted)
                          ++ double_if v.has_durability_pct (codes "durability_pct")
                              v.durability_pct)))))))

-- `WriteCharacter`.
unfoldable pub character_json : Character → Json
character_json c = object (
    members_of (
      field (codes "name") (string c.name)
      ++ (field (codes "level") (uint c.level)
          ++ (field (codes "class") (uint c.cls)
              ++ (field (codes "race") (uint c.race)
                  ++ (field (codes "faction") (string c.faction)
                      ++ (field (codes "money") (uint c.money)
                          ++ (field (codes "free_bag_slots") (uint c.free_bag_slots)
                              ++ string_array_if_set (codes "trait_keys") c.trait_keys))))))))

-- `WriteSurroundings`.
unfoldable pub surroundings_json : Surroundings → Json
surroundings_json s = object (
    members_of (
      field (codes "hostile_count") (uint s.hostile_count)
      ++ (field (codes "friendly_player_count") (uint s.friendly_player_count)
          ++ (field (codes "friendly_bot_count") (uint s.friendly_bot_count)
              ++ (double_if s.has_radius_yards (codes "radius_yards") s.radius_yards
                  ++ (double_if s.has_nearest_hostile_yards (codes "nearest_hostile_yards")
                        s.nearest_hostile_yards
                      ++ (field (codes "group_size") (uint s.group_size)
                          ++ field (codes "is_group_leader") (boolean s.is_group_leader))))))))

quest_json : QuestEntry → Json
quest_json q = object (
    members_of (
      field (codes "quest_id") (uint q.quest_id)
      ++ (field (codes "status") (string q.status)
          ++ (field (codes "objectives_done") (uint q.objectives_done)
              ++ (field (codes "objectives_total") (uint q.objectives_total)
                  ++ (uint_if_set (codes "required_level") q.required_level
                      ++ uint_if_set (codes "quest_level") q.quest_level))))))

poi_json : PointOfInterest → Json
poi_json p = object (
    members_of (
      field (codes "id") (string p.id)
      ++ (field (codes "kind") (string p.kind)
          ++ (field (codes "pos") (position_json p.position)
              ++ (double_if p.has_distance_yards (codes "distance_yards") p.distance_yards
                  ++ (uint_if_set (codes "related_quest_id") p.related_quest_id
                      ++ string_array_if_set (codes "tags") p.tags))))))

outcome_json : IntentOutcome → Json
outcome_json o = object (
    members_of (
      field (codes "intent_id") (string o.intent_id)
      ++ (field (codes "kind") (string o.kind)
          ++ (field (codes "result") (string o.result)
              ++ (str_if_set (codes "reason") o.reason
                  ++ (int_if_set (codes "issued_at_ms") o.issued_at_ms
                      ++ str_if_set (codes "poi_id") o.poi_id))))))

-- `if (!xs.empty()) { Key; StartArray; …; EndArray; }`.
array_if_set : Bytes → List Json → Fields
array_if_set key values = if is_empty values then [] else field key (array (of_list values))

-- `WriteSnapshot`.
unfoldable pub snapshot_json : Snapshot → Json
unfolding quest_json poi_json outcome_json array_if_set
snapshot_json s = object (
    members_of (
      field (codes "bot") (bot_id_json s.bot)
      ++ (field (codes "char") (character_json s.chr)
          ++ (field (codes "pos") (position_json s.position)
              ++ (field (codes "vitals") (vitals_json s.vitals)
                  ++ (field (codes "surroundings") (surroundings_json s.around)
                      ++ (array_if_set (codes "quests") (map quest_json s.quests)
                          ++ (array_if_set (codes "pois") (map poi_json s.pois)
                              ++ ((if s.has_last_outcome
                                    then field (codes "last_outcome") (outcome_json s.last_outcome)
                                    else [])
                                  ++ (field (codes "observed_at_ms") (integer s.observed_at_ms)
                                      ++ string_array_if_set (codes "hints") s.hints))))))))))

unfoldable pub plan_request_json : PlanRequest → Json
plan_request_json req = object (
    members_of (
      field (codes "contract_version") (string req.contract_version)
      ++ (str_if_set (codes "request_id") req.request_id
          ++ (int_if_set (codes "sent_at_ms") req.sent_at_ms
              ++ (int_if_set (codes "deadline_ms") req.deadline_ms
                  ++ field (codes "snapshots")
                      (array (of_list (map snapshot_json req.snapshots))))))))

-- `EncodePlanRequest`.
unfoldable pub encode_plan_request : Library → PlanRequest → Bytes
encode_plan_request lib req = lib.write (plan_request_json req)

unfoldable pub dialogue_request_json : DialogueRequest → Json
dialogue_request_json req = object (
    members_of (
      field (codes "contract_version") (string req.contract_version)
      ++ (str_if_set (codes "request_id") req.request_id
          ++ (field (codes "bot") (bot_id_json req.bot)
              ++ (field (codes "channel") (string req.channel)
                  ++ (field (codes "speaker") (string req.speaker)
                      ++ (str_if_set (codes "speaker_name") req.speaker_name
                          ++ (field (codes "message") (string req.message)
                              ++ (string_array_if_set (codes "trait_keys") req.trait_keys
                                  ++ (str_if_set (codes "language") req.language
                                      ++ (int_if_set (codes "sent_at_ms") req.sent_at_ms
                                          ++ (int_if_set (codes "deadline_ms") req.deadline_ms
                                              ++ (if req.allow_commands
                                                  then field (codes "allow_commands") (boolean true)
                                                  else [])))))))))))))

-- `EncodeDialogueRequest`.
unfoldable pub encode_dialogue_request : Library → DialogueRequest → Bytes
encode_dialogue_request lib req = lib.write (dialogue_request_json req)
