-- ===== src/Wire/Dialogue/Gates.antt =====
-- What a decoded reply has been vetted for before it reaches a game channel.
use twow_repo.Base.{
  Bool, true, not, ◌&&◌, ◌||◌, ◌≡◌, refl, subst, arith, if◌then◌else◌, Bytes, is_empty,
}
use twow_repo.Wire.Vocabulary.{is_known_dialogue_command}
use twow_repo.Wire.Text.{chat_text_is_sane}
use twow_repo.Wire.Json.{Json, Library, Result, ok, err, parse_body}
use twow_repo.Wire.Types.{DialogueResponse}
use twow_repo.Wire.Dialogue.{
  max_dialogue_reply_bytes, with_bot, with_stats, gated_command, read_dialogue, settle,
  decode_dialogue_response,
}

-- A spoken reply is sane text with no reason for silence; a silent one has no text and a reason.
abbrev pub is_settled : DialogueResponse → Bool
is_settled out =
    if out.spoke
    then chat_text_is_sane out.reply max_dialogue_reply_bytes && is_empty out.reason
    else is_empty out.reply && not (is_empty out.reason)

-- No command, or one that the request allowed and that this build can run.
abbrev pub command_is_gated : Bool → DialogueResponse → Bool
command_is_gated allow_commands out =
    is_empty out.command || (allow_commands && is_known_dialogue_command out.command)

settle-is_settled : (out : DialogueResponse) → is_settled (settle out) ≡ true
unfolding settle
settle-is_settled out = ground arith

settle-command : (out : DialogueResponse) → (settle out).command ≡ out.command
unfolding settle
settle-command out = ground arith

read_dialogue-gated :
    (allow_commands : Bool) (doc : Json) (out : DialogueResponse)
    → command_is_gated allow_commands (read_dialogue allow_commands doc out) ≡ true
unfolding read_dialogue with_stats with_bot gated_command
read_dialogue-gated allow_commands doc out = ground arith

settled_command-gated :
    (allow_commands : Bool) (out : DialogueResponse)
    → command_is_gated allow_commands out ≡ true
    → command_is_gated allow_commands (settle out) ≡ true
settled_command-gated allow_commands out h = rw (settle-command out, h)

-- Whatever the service sends, a reply that decodes is either sane text of at most 255 bytes, or
-- silence with a reason; and its command is one that was allowed and is known, or none.
pub decode_dialogue_response-vetted :
    (lib : Library) (body : Bytes) (allow_commands : Bool) (before after : DialogueResponse)
    → decode_dialogue_response lib body allow_commands before ≡ ok after
    → (is_settled after ≡ true) × (command_is_gated allow_commands after ≡ true)
unfolding decode_dialogue_response
decode_dialogue_response-vetted lib body allow_commands before after h =
    go (parse_body lib body) refl
  where
    go :
        (r : Result Json)
        → parse_body lib body ≡ r
        → (is_settled after ≡ true) × (command_is_gated allow_commands after ≡ true)
    go (err why) e = absurd (failed (rw (e, decode_dialogue_response) at h))
      where
        failed : err why ≡ ok after → ⊥
        failed q = cc
    go (ok doc) e =
        subst (λ out. (is_settled out ≡ true) × (command_is_gated allow_commands out ≡ true))
          (returned (rw (e, decode_dialogue_response) at h))
          (
            settle-is_settled (read_dialogue allow_commands doc before),
            settled_command-gated allow_commands (read_dialogue allow_commands doc before)
                (read_dialogue-gated allow_commands doc before),
          )
      where
        returned :
            ok (settle (read_dialogue allow_commands doc before)) ≡ ok after
            → settle (read_dialogue allow_commands doc before) ≡ after
        returned q = cc
