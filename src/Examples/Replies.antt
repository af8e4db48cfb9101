-- ===== src/Examples/Replies.antt =====
-- Requests and replies, and the texts in them.
use twow_repo.Base.{bytes_eq, ◌≤◌, ◌≡◌, ◌↔◌, refl, true, false, [], ◌∷◌, take, length, codes, All}
use twow_repo.Base.Int.{pos}
use twow_repo.Wire.Text.{chat_bytes, is_possible_strategy_name, chat_text_is_sane}
use twow_repo.Wire.Text.Chat.{IsPrintable, NoC1, IsBlank, chat_text_is_sane_iff}
use twow_repo.Wire.Text.Strategy.{IsWords, is_possible_strategy_name_iff}
use twow_repo.Wire.Json.{ok, parse_body, find_member, get_bool, get_string}
use twow_repo.Wire.Types.{PlanResponse, DialogueResponse, no_bot}
use twow_repo.Wire.Decode.{
  read_changes, max_strategy_changes, plan_response_of, decode_plan_response,
}
use twow_repo.Wire.Decode.Changes.{first_of_target, usable, read_changes-first}
use twow_repo.Wire.Decode.Intents.{IsAcceptable}
use twow_repo.Wire.Decode.Total.{decode_plan_response-IsAcceptable}
use twow_repo.Wire.Dialogue.{decode_dialogue_response}
use twow_repo.Wire.Dialogue.Gates.{is_settled, command_is_gated, decode_dialogue_response-vetted}
use twow_repo.Examples.Samples.{change_json, plan_json, dialogue_json, library_of}

abbrev plan : PlanResponse
plan = plan_response_of (library_of plan_json) plan_json

plan_decodes : decode_plan_response (library_of plan_json) (codes "{}") ≡ ok plan
unfolding decode_plan_response parse_body
plan_decodes = refl

decode_plan_response-IsAcceptable_example : All IsAcceptable plan.intents
decode_plan_response-IsAcceptable_example =
    decode_plan_response-IsAcceptable (library_of plan_json) (codes "{}") plan plan_decodes

read_changes-first_example :
    read_changes [] (change_json ∷ change_json ∷ [])
    ≡ take max_strategy_changes (first_of_target [] (usable (change_json ∷ change_json ∷ [])))
read_changes-first_example = read_changes-first (change_json ∷ change_json ∷ [])

abbrev nothing_said : DialogueResponse
nothing_said = record {
  contract_version = [];
  request_id = [];
  bot = no_bot;
  spoke = false;
  reply = [];
  reason = [];
  command = [];
  reply_ms = pos 0;
  traits_applied = pos 0;
  unknown_fields = pos 0;
}

abbrev said : DialogueResponse
said = record nothing_said { spoke = true; reply = codes "Well met." }

dialogue_decodes :
    decode_dialogue_response (library_of dialogue_json) (codes "{}") false nothing_said ≡ ok said
unfolding decode_dialogue_response parse_body find_member bytes_eq get_bool chat_text_is_sane
    get_string chat_bytes
dialogue_decodes = refl

decode_dialogue_response-vetted_example :
    (is_settled said ≡ true) × (command_is_gated false said ≡ true)
decode_dialogue_response-vetted_example =
    decode_dialogue_response-vetted (library_of dialogue_json) (codes "{}") false nothing_said said
      dialogue_decodes

chat_text_is_sane_iff_example : (chat_text_is_sane (codes "hail") 255 ≡ true) ↔ (
    (length (codes "hail") ≤ 255)
    × All IsPrintable (codes "hail")
    × NoC1 (codes "hail")
    × (¬ IsBlank (codes "hail")))
chat_text_is_sane_iff_example = chat_text_is_sane_iff (codes "hail") 255

is_possible_strategy_name_iff_example :
    (is_possible_strategy_name (codes "dps assist") ≡ true)
    ↔ (IsWords (codes "dps assist") × (length (codes "dps assist") ≤ 64))
is_possible_strategy_name_iff_example = is_possible_strategy_name_iff (codes "dps assist")
