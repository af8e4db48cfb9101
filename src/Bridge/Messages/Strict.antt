-- ===== src/Bridge/Messages/Strict.antt =====
-- StrictJson: what may stand in a line before it is parsed, and the callback that the parser calls
-- for each event, which finds duplicate keys and deep nesting.
pub mod Trees
use twow_repo.Base.{
  ℕ, suc, ◌+◌, Bool, true, false, not, ◌&&◌, ◌||◌, List, [], ◌∷◌, ◌++◌, Option, none, some, ltb,
  ◌==◌, if◌then◌else◌, Bytes, is_empty, length, any, contains, all,
}
use twow_repo.Wire.Json.{
  Json, null, boolean, integer, real, string, array, object, Elements, end, element, Members, done,
  member,
}
use twow_repo.Bridge.Utf8.{decode_utf8}

pub data Event : Type 0 where
  object_start : Event
  key : Bytes → Event
  object_end : Event
  other : Event

-- nlohmann's parser: the events of a text, each with the depth that it hands to the callback, and
-- the value; `none` where it throws. (After a refusal the parser leaves some of the calls out; the
-- flags are up by then.)
pub record Parser : Type 0 where
  pub parse : Bytes → Option (List (ℕ × Event) × Json)

-- What the lambda keeps.
pub record Seen : Type 0 where
  pub object_keys : List (List Bytes)
  pub duplicate : Bool
  pub too_deep : Bool

abbrev pub deep : ℕ → Seen → Seen
deep depth s = record s { too_deep = s.too_deep || ltb 32 depth }

-- `objectKeys.back().insert(…)`; the innermost object is at the front.
unfoldable pub add_key : Bytes → List (List Bytes) → Seen → Seen
add_key k [] s = record s { duplicate = true }
add_key k (keys ∷ outer) s = record s {
  duplicate = s.duplicate || contains keys k;
  object_keys = (k ∷ keys) ∷ outer;
}

abbrev pub pop_back : List (List Bytes) → List (List Bytes)
pop_back [] = []
pop_back (keys ∷ outer) = outer

-- The callback.
unfoldable pub on_event : ℕ × Event → Seen → Seen
unfolding add_key
on_event (depth, object_start) s = record (deep depth s) { object_keys = [] ∷ s.object_keys }
on_event (depth, key k) s = add_key k s.object_keys (deep depth s)
on_event (depth, object_end) s = record (deep depth s) { object_keys = pop_back s.object_keys }
on_event (depth, other) s = deep depth s

unfoldable pub on_events : List (ℕ × Event) → Seen → Seen
unfolding on_event
on_events [] s = s
on_events (e ∷ es) s = on_events es (on_event e s)

abbrev pub nothing_seen : Seen
nothing_seen = record { object_keys = []; duplicate = false; too_deep = false }

abbrev pub is_object : Json → Bool
is_object (object ms) = true
is_object _ = false

-- The byte order mark of UTF-8.
abbrev starts_with_bom : Bytes → Bool
starts_with_bom (a ∷ b ∷ c ∷ rest) = a == 0xef && b == 0xbb && c == 0xbf
starts_with_bom _ = false

decodes : Option ℕ → Bool
decodes none = false
decodes (some n) = true

unfoldable pub may_be_parsed : Bytes → Bool
unfolding decodes
may_be_parsed line =
    not (is_empty line)
    && not (ltb 16384 (length line))
    && not (any (λ c. c == 0) line)
    && not (starts_with_bom line)
    && decodes (decode_utf8 false line)

unfoldable pub accepted_value : Option (List (ℕ × Event) × Json) → Option Json
unfolding on_events
accepted_value none = none
accepted_value (some (events, value)) =
    let seen = on_events events nothing_seen in
    if not seen.duplicate && not seen.too_deep && is_object value then some value else none

unfoldable pub strict_json : Parser → Bytes → Option Json
unfolding accepted_value
strict_json p line = if may_be_parsed line then accepted_value (p.parse line) else none
