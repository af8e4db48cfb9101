-- ===== src/Wire/Json.antt =====
-- rapidjson as BotBrainWire.cpp uses it: documents as values, and the accessors that never throw.
-- The parser, the writer and the rounding of integers to doubles are the library's own.
use twow_repo.Base.{
  ℕ, ◌^◌, Bool, false, List, [], ◌∷◌, Option, none, some, ltb, if◌then◌else◌, Bytes, codes,
  bytes_eq, is_empty,
}
use twow_repo.Base.Int.{ℤ, pos, negsuc}
use twow_repo.Wire.Double.{Double}

-- A number without fraction and exponent that fits 64 bits is an integer.
mutual
  pub data Json : Type 0 where
    null : Json
    boolean : Bool → Json
    integer : ℤ → Json
    real : Double → Json
    string : Bytes → Json
    array : Elements → Json
    object : Members → Json

  pub data Elements : Type 0 where
    end : Elements
    element : Json → Elements → Elements

  pub data Members : Type 0 where
    done : Members
    member : Bytes → Json → Members → Members

abbrev pub to_list : Elements → List Json
to_list end = []
to_list (element v vs) = v ∷ to_list vs

abbrev pub of_list : List Json → Elements
of_list [] = end
of_list (v ∷ vs) = element v (of_list vs)

-- What the code calls of rapidjson.
pub record Library : Type 0 where
  pub parse : Bytes → Option Json
  pub write : Json → Bytes
  pub double_of_int : ℤ → Double

-- `FindMember` on an object: the first member of that name.
unfoldable pub find_in : Bytes → Members → Option Json
find_in key done = none
find_in key (member k v ms) = if bytes_eq k key then some v else find_in key ms

unfoldable pub find_member : Json → Bytes → Option Json
unfolding find_in
find_member (object ms) key = find_in key ms
find_member _ key = none

string_or : Option Json → Bytes
string_or (some (string s)) = s
string_or _ = []

-- `GetString`.
unfoldable pub get_string : Json → Bytes → Bytes
unfolding string_or
get_string v key = string_or (find_member v key)

double_or : Library → Option Json → Double → Double
double_or lib (some (real d)) fallback = d
double_or lib (some (integer z)) fallback = lib.double_of_int z
double_or lib _ fallback = fallback

-- `GetDouble`.
unfoldable pub get_double : Library → Json → Bytes → Double → Double
unfolding double_or
get_double lib v key fallback = double_or lib (find_member v key) fallback

-- `IsInt64` and `IsUint64` on an integer.
abbrev pub is_int64 : ℤ → Bool
is_int64 (pos n) = ltb n (2 ^ 63)
is_int64 (negsuc n) = ltb n (2 ^ 63)

abbrev pub is_int32 : ℤ → Bool
is_int32 (pos n) = ltb n (2 ^ 31)
is_int32 (negsuc n) = ltb n (2 ^ 31)

int64_or : Option Json → ℤ → ℤ
int64_or (some (integer z)) fallback = if is_int64 z then z else fallback
int64_or _ fallback = fallback

-- `GetInt64`.
unfoldable pub get_int64 : Json → Bytes → ℤ → ℤ
unfolding int64_or
get_int64 v key fallback = int64_or (find_member v key) fallback

uint64_or : Option Json → ℕ → ℕ
uint64_or (some (integer (pos n))) fallback = if ltb n (2 ^ 64) then n else fallback
uint64_or _ fallback = fallback

-- `GetUint64`.
unfoldable pub get_uint64 : Json → Bytes → ℕ → ℕ
unfolding uint64_or
get_uint64 v key fallback = uint64_or (find_member v key) fallback

bool_or : Option Json → Bool
bool_or (some (boolean b)) = b
bool_or _ = false

-- `it != MemberEnd() && it->value.IsBool() && it->value.GetBool()`.
unfoldable pub get_bool : Json → Bytes → Bool
unfolding bool_or
get_bool v key = bool_or (find_member v key)

-- A result, or the text that goes to `error`.
pub data Result {ℓ} (A : Type ℓ) : Type ℓ where
  ok : A → Result A
  err : Bytes → Result A

infixl 5 ◌>>=◌
abbrev pub ◌>>=◌ {ℓ κ} : {A : Type ℓ} {B : Type κ} → Result A → (A → Result B) → Result B
ok a >>= f = f a
err e >>= f = err e

parsed_object : Option Json → Result Json
parsed_object none = err (codes "response is not valid JSON/UTF-8")
parsed_object (some (object ms)) = ok (object ms)
parsed_object (some _) = err (codes "response is not a JSON object")

-- `Parse`.
unfoldable pub parse_body : Library → Bytes → Result Json
unfolding parsed_object
parse_body lib body =
    if is_empty body then err (codes "empty response body") else parsed_object (lib.parse body)
