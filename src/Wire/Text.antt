-- ===== src/Wire/Text.antt =====
-- The checks on text that crosses the wire: strategy names, chat, trait keys and speaker names.
pub mod Strategy
pub mod Chat
pub mod Speaker
use Prim.Native.Nat.{bit_and}
use twow_repo.Base.{
  ℕ, zero, suc, ◌+◌, ◌-◌, Bool, true, false, not, ◌&&◌, ◌||◌, List, [], ◌∷◌, Option, none, some,
  leb, ltb, ◌==◌, if◌then◌else◌, Bytes, length, is_empty, take, all,
}

abbrev pub max_strategy_name_bytes : ℕ
max_strategy_name_bytes = 64

abbrev pub is_alnum : ℕ → Bool
is_alnum c = (leb b'a' c && leb c b'z') || (leb b'A' c && leb c b'Z') || (leb b'0' c && leb c b'9')

-- `name.front()` and `name.back()` against a byte; an empty name has been refused before.
abbrev pub starts_with_byte : ℕ → Bytes → Bool
starts_with_byte b [] = false
starts_with_byte b (c ∷ cs) = c == b

abbrev pub ends_with_byte : ℕ → Bytes → Bool
ends_with_byte b [] = false
ends_with_byte b (c ∷ []) = c == b
ends_with_byte b (c ∷ d ∷ cs) = ends_with_byte b (d ∷ cs)

-- The loop over the name; the flag is `i > 0 && name[i - 1] == ' '`.
unfoldable pub strategy_bytes : Bool → Bytes → Bool
strategy_bytes after_space [] = true
strategy_bytes after_space (c ∷ cs) =
    let rest = strategy_bytes (c == b' ') cs in
    if is_alnum c then rest else if c == b' ' then (if after_space then false else rest) else false

unfoldable pub is_possible_strategy_name : Bytes → Bool
is_possible_strategy_name name =
    if is_empty name || ltb max_strategy_name_bytes (length name)
    then false
    else if starts_with_byte b' ' name || ends_with_byte b' ' name
    then false
    else strategy_bytes false name

-- `next >= 0x80 && next <= 0x9f` on the byte behind, if there is one.
abbrev pub next_is_c1 : Bytes → Bool
next_is_c1 [] = false
next_is_c1 (d ∷ ds) = leb 0x80 d && leb d 0x9f

-- The loop of `ChatTextIsSane`, with `allSpace`.
unfoldable pub chat_bytes : Bool → Bytes → Bool
chat_bytes all_space [] = not all_space
chat_bytes all_space (c ∷ cs) =
    let rest = chat_bytes (if not (c == b' ') && not (c == 0x09) then false else all_space) cs in
    if ltb c 0x20 || c == 0x7f then false else if c == 0xc2 && next_is_c1 cs then false else rest

unfoldable pub chat_text_is_sane : Bytes → ℕ → Bool
chat_text_is_sane s max = if is_empty s || ltb max (length s) then false else chat_bytes true s

abbrev pub max_dialogue_trait_key_bytes : ℕ
max_dialogue_trait_key_bytes = 64

abbrev pub is_trait_key_byte : ℕ → Bool
is_trait_key_byte c = (leb b'a' c && leb c b'z') || (leb b'0' c && leb c b'9') || c == b'_'

unfoldable pub trait_key_is_sane : Bytes → Bool
trait_key_is_sane k =
    if is_empty k || ltb max_dialogue_trait_key_bytes (length k)
    then false
    else all is_trait_key_byte k

abbrev pub max_dialogue_speaker_name_runes : ℕ
max_dialogue_speaker_name_runes = 12

abbrev pub is_ascii_letter : ℕ → Bool
is_ascii_letter c = (leb b'a' c && leb c b'z') || (leb b'A' c && leb c b'Z')

-- The length of a sequence from its lead byte; `none` is a lone continuation byte or a longer lead.
unfoldable pub lead_length : ℕ → Option ℕ
lead_length c =
    if bit_and c 0xe0 == 0xc0
    then some 2
    else if bit_and c 0xf0 == 0xe0
    then some 3
    else if bit_and c 0xf8 == 0xf0
    then some 4
    else none

unfoldable pub is_continuation : ℕ → Bool
is_continuation c = bit_and c 0xc0 == 0x80

-- A sequence of `len` bytes with lead `c`, of which `cs` holds the rest.
unfoldable pub sequence_ok : ℕ → ℕ → Bytes → Bool
unfolding is_continuation
sequence_ok c len cs =
    leb (len - 1) (length cs)
    && all is_continuation (take (len - 1) cs)
    && not (len == 2 && c == 0xc2)

-- The loop of `SpeakerNameIsSane`: the bytes still to be skipped by `i += len - 1`, and `runes`.
unfoldable pub speaker_runes : ℕ → ℕ → Bytes → Option ℕ
speaker_runes skip runes [] = some runes
speaker_runes (suc skip) runes (c ∷ cs) = speaker_runes skip runes cs
speaker_runes zero runes (c ∷ cs) =
    let letter = if is_ascii_letter c then speaker_runes zero (runes + 1) cs else none in
    let sequence : Option ℕ = elim (lead_length c) [
      | none ↦ none
      | some len ↦ if sequence_ok c len cs then speaker_runes (len - 1) (runes + 1) cs else none
    ] in
    if ltb c 0x80 then letter else sequence

unfoldable pub speaker_name_is_sane : Bytes → Bool
speaker_name_is_sane name = if is_empty name then true else elim (speaker_runes 0 0 name) [
  | none ↦ false
  | some runes ↦ leb 2 runes && leb runes max_dialogue_speaker_name_runes
]
