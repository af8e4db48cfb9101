-- ===== src/Personality/Identity.antt =====
-- PersonalityIdentity.h: ids to catalog keys, and the stored form of a profile.
pub mod Stored
pub mod Known
use twow_repo.Base.{
  ℕ, suc, ◌+◌, Bool, true, false, not, ◌&&◌, ◌||◌, List, [], ◌∷◌, ◌++◌, leb, ltb, ◌==◌,
  if◌then◌else◌, Bytes, codes, length, is_empty, all,
}

-- `RaceKey`; `default` is the empty string.
unfoldable pub race_key : ℕ → Bytes
race_key race =
    if race == 1
    then codes "human"
    else if race == 2
    then codes "orc"
    else if race == 3
    then codes "dwarf"
    else if race == 4
    then codes "night_elf"
    else if race == 5
    then codes "undead"
    else if race == 6
    then codes "tauren"
    else if race == 7
    then codes "gnome"
    else if race == 8
    then codes "troll"
    else if race == 9
    then codes "goblin"
    else if race == 10
    then codes "high_elf"
    else []

-- `ClassKey`; ids 6 and 10 are gaps.
unfoldable pub class_key : ℕ → Bytes
class_key cls =
    if cls == 1
    then codes "warrior"
    else if cls == 2
    then codes "paladin"
    else if cls == 3
    then codes "hunter"
    else if cls == 4
    then codes "rogue"
    else if cls == 5
    then codes "priest"
    else if cls == 7
    then codes "shaman"
    else if cls == 8
    then codes "mage"
    else if cls == 9
    then codes "warlock"
    else if cls == 11
    then codes "druid"
    else []

-- The loop of `EncodeTraitKeys` over the keys, with `out` so far.
encode_onto : Bytes → List Bytes → Bytes
encode_onto out [] = out
encode_onto out (key ∷ keys) =
    encode_onto
      (if is_empty key
        then out
        else if not (is_empty out)
        then (out ++ b',' ∷ []) ++ key
        else out ++ key)
      keys

unfoldable pub encode_trait_keys : List Bytes → Bytes
unfolding encode_onto
encode_trait_keys keys = encode_onto [] keys

abbrev pub is_trait_byte : ℕ → Bool
is_trait_byte c = (leb b'a' c && leb c b'z') || c == b'_'

unfoldable pub is_plausible_trait_key : Bytes → Bool
is_plausible_trait_key key =
    if is_empty key || ltb 64 (length key) then false else all is_trait_byte key

-- `if (IsPlausibleTraitKey(current)) keys.push_back(current)`.
flush : List Bytes → Bytes → List Bytes
flush keys current = if is_plausible_trait_key current then keys ++ current ∷ [] else keys

-- The loop of `DecodeTraitKeys`; the index one past the end is the empty rest.
decode_onto : List Bytes → Bytes → Bytes → List Bytes
unfolding flush
decode_onto keys current [] = flush keys current
decode_onto keys current (c ∷ stored) =
    let split = decode_onto (flush keys current) [] stored in
    let grown = decode_onto keys (current ++ c ∷ []) stored in if c == b',' then split else grown

unfoldable pub decode_trait_keys : Bytes → List Bytes
unfolding decode_onto
decode_trait_keys stored = decode_onto [] [] stored
