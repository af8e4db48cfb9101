-- ===== src/Wire/Encode/ReadBack.antt =====
-- An identity that the writer emits is the identity that the reader takes from it.
use twow_repo.Base.{ℕ, ◌<◌, ◌^◌, ◌%◌, [], ◌∷◌, some, ◌≡◌, refl, arith, Bytes, bytes_eq, codes}
use twow_repo.Wire.Types.{BotId}
use twow_repo.Wire.Json.{find_member, get_uint64, get_string}
use twow_repo.Wire.Encode.{bot_id_json, str_if_set}
use twow_repo.Wire.Decode.{read_bot}

get_string-bot_id_json :
    (u : Bytes) (r g : ℕ)
    → get_string (bot_id_json (record { realm = r; guid = g; uuid = u })) (codes "uuid") ≡ u
unfolding bot_id_json str_if_set find_member get_string bytes_eq
get_string-bot_id_json [] r g = refl
get_string-bot_id_json (c ∷ u) r g = refl

get_realm-bot_id_json :
    (id : BotId)
    → id.realm < 2 ^ 32
    → get_uint64 (bot_id_json id) (codes "realm") 0 % 2 ^ 32 ≡ id.realm
unfolding bot_id_json find_member get_uint64 bytes_eq
get_realm-bot_id_json id h = ground arith

get_guid-bot_id_json :
    (id : BotId) → id.guid < 2 ^ 64 → get_uint64 (bot_id_json id) (codes "guid") 0 ≡ id.guid
unfolding bot_id_json find_member get_uint64 bytes_eq
get_guid-bot_id_json id h = ground arith

-- A realm of 32 bits and a guid of 64 bits are read back as they were written, and so is the uuid,
-- which an empty one is not written for.
pub read_bot-bot_id_json :
    (id : BotId) → id.realm < 2 ^ 32 → id.guid < 2 ^ 64 → read_bot (some (bot_id_json id)) ≡ id
unfolding read_bot
read_bot-bot_id_json id small_realm small_guid = rw (
  get_realm-bot_id_json id small_realm,
  get_guid-bot_id_json id small_guid,
  get_string-bot_id_json id.uuid id.realm id.guid,
)
