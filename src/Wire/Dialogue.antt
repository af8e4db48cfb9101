-- ===== src/Wire/Dialogue.antt =====
-- `ValidateDialogueRequest` and `DecodeDialogueResponse`.
pub mod Gates
use twow_repo.Base.{
  ℕ, ◌%◌, ◌^◌, Bool, true, false, not, ◌&&◌, ◌||◌, List, [], ◌∷◌, ◌++◌, Option, none, some, ltb,
  if◌then◌else◌, Bytes, codes, bytes_eq, is_empty, all, length,
}
use twow_repo.Base.Int.{ℤ, pos, to_int32}
use twow_repo.Wire.Vocabulary.{
  is_known_dialogue_channel, is_known_dialogue_command, dialogue_speaker_player,
  dialogue_speaker_bot, dialogue_language, silence_unavailable, silence_filtered,
}
use twow_repo.Wire.Text.{chat_text_is_sane, trait_key_is_sane, speaker_name_is_sane}
use twow_repo.Wire.Json.{
  Json, Library, find_member, get_string, get_int64, get_uint64, get_bool, Result, ok, err,
  parse_body,
}
use twow_repo.Wire.Types.{BotId, is_zero_bot, DialogueRequest, DialogueResponse}

abbrev pub max_dialogue_message_bytes : ℕ
max_dialogue_message_bytes = 512

abbrev pub max_dialogue_reply_bytes : ℕ
max_dialogue_reply_bytes = 255

abbrev pub max_dialogue_trait_keys : ℕ
max_dialogue_trait_keys = 12

unfoldable pub validate_dialogue_request : DialogueRequest → Result (Unit {0})
validate_dialogue_request req =
    if is_zero_bot req.bot
    then err (codes "dialogue request has a zero realm or guid")
    else if not (is_known_dialogue_channel req.channel)
    then err (codes "dialogue request has unknown channel " ++ req.channel)
    else if not (bytes_eq req.speaker dialogue_speaker_player)
        && not (bytes_eq req.speaker dialogue_speaker_bot)
    then err (codes "dialogue request has unknown speaker " ++ req.speaker)
    else if not (speaker_name_is_sane req.speaker_name)
    then err (codes "dialogue request has a speaker name that cannot be a character name")
    else if not (is_empty req.language) && not (bytes_eq req.language dialogue_language)
    then err (codes "dialogue request asks for language " ++ req.language)
    else if not (chat_text_is_sane req.message max_dialogue_message_bytes)
    then err (codes "dialogue request message is empty, oversized, or carries a control character")
    else if ltb max_dialogue_trait_keys (length req.trait_keys)
    then err (codes "dialogue request carries more than the permitted trait keys")
    else if not (all trait_key_is_sane req.trait_keys)
    then err (codes "dialogue request carries a trait key that is not a lowercase identifier")
    else ok tt

-- The fields of `bot`, over those that `out` had: a document with no `bot` leaves them.
with_bot : Option Json → DialogueResponse → DialogueResponse
with_bot none out = out
with_bot (some v) out = record out {
  bot = record {
    realm = get_uint64 v (codes "realm") 0 % 2 ^ 32;
    guid = get_uint64 v (codes "guid") 0;
    uuid = get_string v (codes "uuid");
  };
}

with_stats : Option Json → DialogueResponse → DialogueResponse
with_stats none out = out
with_stats (some v) out = record out {
  reply_ms = get_int64 v (codes "reply_ms") (pos 0);
  traits_applied = to_int32 (get_int64 v (codes "traits_applied") (pos 0));
  unknown_fields = to_int32 (get_int64 v (codes "unknown_fields") (pos 0));
}

-- The two gates of a command.
gated_command : Bool → Bytes → Bytes
gated_command allow_commands command =
    if not allow_commands || not (is_known_dialogue_command command) then [] else command

-- The fields as they are read, before the last gate.
read_dialogue : Bool → Json → DialogueResponse → DialogueResponse
unfolding with_bot with_stats gated_command
read_dialogue allow_commands doc out =
    with_stats (find_member doc (codes "stats"))
      (record (with_bot (find_member doc (codes "bot")) out) {
        contract_version = get_string doc (codes "contract_version");
        request_id = get_string doc (codes "request_id");
        spoke = get_bool doc (codes "spoke");
        reply = get_string doc (codes "reply");
        reason = get_string doc (codes "reason");
        command = gated_command allow_commands (get_string doc (codes "command"));
      })

-- The last gate: a reply that is not sane is silence.
unfoldable pub settle : DialogueResponse → DialogueResponse
settle out =
    if out.spoke && not (chat_text_is_sane out.reply max_dialogue_reply_bytes)
    then record out { spoke = false; reply = []; reason = silence_filtered }
    else if not out.spoke
    then record out {
      reply = [];
      reason = if is_empty out.reason then silence_unavailable else out.reason;
    }
    else record out { reason = [] }

-- `out` is what the caller passed in; it is not reset. On an error it stays as it was.
unfoldable pub decode_dialogue_response :
    Library → Bytes → Bool → DialogueResponse → Result DialogueResponse
unfolding read_dialogue settle
decode_dialogue_response lib body allow_commands out = elim (parse_body lib body) [
  | err why ↦ err why
  | ok doc ↦ ok (settle (read_dialogue allow_commands doc out))
]
