-- ===== src/Wire/Vocabulary.antt =====
-- The names of the contract, and the predicates on them.
pub mod Kinds
use twow_repo.Base.{ℕ, Bool, ◌||◌, List, [], ◌∷◌, ◌==◌, Bytes, codes, bytes_eq, any}

abbrev pub contract_version : Bytes
contract_version = codes "1.6"

abbrev pub contract_major : ℕ
contract_major = 1

abbrev pub intent_idle : Bytes
intent_idle = codes "idle"

abbrev pub intent_travel_to : Bytes
intent_travel_to = codes "travel_to"

abbrev pub intent_grind_area : Bytes
intent_grind_area = codes "grind_area"

abbrev pub intent_vendor_sell : Bytes
intent_vendor_sell = codes "vendor_sell"

abbrev pub intent_repair : Bytes
intent_repair = codes "repair"

abbrev pub intent_rest : Bytes
intent_rest = codes "rest"

abbrev pub intent_pick_quest : Bytes
intent_pick_quest = codes "pick_quest"

abbrev pub intent_turn_in_quest : Bytes
intent_turn_in_quest = codes "turn_in_quest"

abbrev pub intent_abandon_quest : Bytes
intent_abandon_quest = codes "abandon_quest"

abbrev pub intent_visit_trainer : Bytes
intent_visit_trainer = codes "visit_trainer"

abbrev pub intent_set_strategies : Bytes
intent_set_strategies = codes "set_strategies"

abbrev pub bot_state_combat : Bytes
bot_state_combat = codes "combat"

abbrev pub bot_state_non_combat : Bytes
bot_state_non_combat = codes "non_combat"

abbrev pub bot_state_dead : Bytes
bot_state_dead = codes "dead"

abbrev pub bot_state_reaction : Bytes
bot_state_reaction = codes "reaction"

-- `s == c₁ || s == c₂ || …`.
unfoldable pub one_of : List Bytes → Bytes → Bool
one_of cs s = any (bytes_eq s) cs

unfoldable pub is_known_intent_kind : Bytes → Bool
is_known_intent_kind = one_of (
    intent_idle ∷ intent_travel_to ∷ intent_grind_area ∷ intent_vendor_sell ∷ intent_repair
    ∷ intent_rest ∷ intent_pick_quest ∷ intent_turn_in_quest ∷ intent_abandon_quest
    ∷ intent_visit_trainer ∷ intent_set_strategies ∷ [])

unfoldable pub is_known_bot_state : Bytes → Bool
is_known_bot_state =
    one_of (bot_state_combat ∷ bot_state_non_combat ∷ bot_state_dead ∷ bot_state_reaction ∷ [])

abbrev pub poi_directed_kinds : List Bytes
poi_directed_kinds =
    intent_travel_to ∷ intent_grind_area ∷ intent_vendor_sell ∷ intent_repair ∷ intent_pick_quest
    ∷ intent_turn_in_quest ∷ intent_visit_trainer ∷ []

unfoldable pub is_poi_directed_kind : Bytes → Bool
is_poi_directed_kind = one_of poi_directed_kinds

abbrev pub arrival_kinds : List Bytes
arrival_kinds =
    intent_vendor_sell ∷ intent_repair ∷ intent_pick_quest ∷ intent_turn_in_quest
    ∷ intent_visit_trainer ∷ []

unfoldable pub has_arrival_action : Bytes → Bool
has_arrival_action = one_of arrival_kinds

abbrev pub applied_kinds : List Bytes
applied_kinds = intent_rest ∷ intent_set_strategies ∷ []

unfoldable pub is_applied_kind : Bytes → Bool
is_applied_kind = one_of applied_kinds

unfoldable pub is_standing_kind : Bytes → Bool
is_standing_kind kind = bytes_eq kind intent_set_strategies

abbrev pub dialogue_channel_say : Bytes
dialogue_channel_say = codes "say"

abbrev pub dialogue_channel_party : Bytes
dialogue_channel_party = codes "party"

abbrev pub dialogue_channel_guild : Bytes
dialogue_channel_guild = codes "guild"

abbrev pub dialogue_channel_whisper : Bytes
dialogue_channel_whisper = codes "whisper"

abbrev pub dialogue_channel_guild_event : Bytes
dialogue_channel_guild_event = codes "guild_event"

unfoldable pub is_known_dialogue_channel : Bytes → Bool
is_known_dialogue_channel = one_of (
    dialogue_channel_say ∷ dialogue_channel_party ∷ dialogue_channel_guild
    ∷ dialogue_channel_whisper ∷ dialogue_channel_guild_event ∷ [])

abbrev pub dialogue_speaker_player : Bytes
dialogue_speaker_player = codes "player"

abbrev pub dialogue_speaker_bot : Bytes
dialogue_speaker_bot = codes "bot"

abbrev pub dialogue_language : Bytes
dialogue_language = codes "de"

abbrev pub dialogue_command_follow : Bytes
dialogue_command_follow = codes "follow"

abbrev pub dialogue_command_stay : Bytes
dialogue_command_stay = codes "stay"

abbrev pub dialogue_command_flee : Bytes
dialogue_command_flee = codes "flee"

abbrev pub dialogue_command_attack : Bytes
dialogue_command_attack = codes "attack"

abbrev pub dialogue_command_equip_upgrades : Bytes
dialogue_command_equip_upgrades = codes "equip_upgrades"

unfoldable pub is_known_dialogue_command : Bytes → Bool
is_known_dialogue_command = one_of (
    dialogue_command_follow ∷ dialogue_command_stay ∷ dialogue_command_flee
    ∷ dialogue_command_attack ∷ dialogue_command_equip_upgrades ∷ [])

abbrev pub silence_unavailable : Bytes
silence_unavailable = codes "inference_unavailable"

abbrev pub silence_filtered : Bytes
silence_filtered = codes "filtered"
