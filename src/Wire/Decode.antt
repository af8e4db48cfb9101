-- ===== src/Wire/Decode.antt =====
-- `DecodePlanResponse` and `DecodeContractInfo`.
pub mod Changes
pub mod Intents
pub mod Total
pub mod Contract
use twow_repo.Base.{
  ℕ, suc, ◌+◌, ◌%◌, ◌^◌, Bool, true, false, not, ◌&&◌, ◌||◌, List, [], ◌∷◌, ◌++◌, Option, none,
  some, leb, ◌==◌, if◌then◌else◌, Bytes, codes, bytes_eq, is_empty, any, length,
}
use twow_repo.Base.Int.{ℤ, pos, negsuc, to_int32}
use twow_repo.Wire.Vocabulary.{is_known_intent_kind, is_known_bot_state, intent_set_strategies}
use twow_repo.Wire.Text.{is_possible_strategy_name}
use twow_repo.Wire.Double.{zero_double}
use twow_repo.Wire.Json.{
  Json, boolean, integer, real, string, array, object, to_list, Library, find_member, get_string,
  get_double, get_int64, get_uint64, get_bool, is_int32, Result, ok, err, ◌>>=◌, parse_body,
}
use twow_repo.Wire.Types.{
  StrategyChange, BotId, is_zero_bot, Intent, PlanError, PlanResponse, ContractInfo, no_bot,
  new_intent,
}

-- The elements of a member, if it is an array.
abbrev pub array_of : Option Json → List Json
array_of (some (array vs)) = to_list vs
array_of _ = []

abbrev pub is_object : Json → Bool
is_object (object ms) = true
is_object _ = false

-- A member, if it is an object.
abbrev pub object_of : Option Json → Option Json
object_of (some (object ms)) = some (object ms)
object_of _ = none

-- `bot` of an entry; the realm is cast to 32 bits.
unfoldable pub read_bot : Option Json → BotId
read_bot none = no_bot
read_bot (some v) = record {
  realm = get_uint64 v (codes "realm") 0 % 2 ^ 32;
  guid = get_uint64 v (codes "guid") 0;
  uuid = get_string v (codes "uuid");
}

abbrev pub max_strategy_changes : ℕ
max_strategy_changes = 16

unfoldable pub read_change : Json → StrategyChange
read_change c = record {
  name = get_string c (codes "name");
  state = get_string c (codes "state");
  enable = get_bool c (codes "enable");
}

-- An entry of a shape that this build can carry out.
unfoldable pub is_usable_change : Json → Bool
is_usable_change c =
    is_object c
    && is_possible_strategy_name (read_change c).name
    && is_known_bot_state (read_change c).state

abbrev pub same_target : StrategyChange → StrategyChange → Bool
same_target x y = bytes_eq x.name y.name && bytes_eq x.state y.state

-- The loop over `changes`, with the intent's strategies so far.
unfoldable pub read_changes : List StrategyChange → List Json → List StrategyChange
read_changes seen [] = seen
read_changes seen (c ∷ cs) =
    let change = read_change c in
    let duplicate = any (λ s. same_target s change) seen in
    let rest =
      read_changes (if is_usable_change c && not duplicate then seen ++ change ∷ [] else seen) cs in
    if is_usable_change c && leb max_strategy_changes (length seen) then seen else rest

-- The three parts that an intent may carry.
with_travel : Library → Option Json → Intent → Intent
with_travel lib none intent = intent
with_travel lib (some travel) intent =
    let has_stop : Bool = elim (find_member travel (codes "stop_within_yards")) [
      | none ↦ false
      | some v ↦ elim v [ real d ↦ true | integer z ↦ true | _ ↦ false ]
    ] in
    record intent {
      has_travel = true;
      travel_poi_id = get_string travel (codes "poi_id");
      has_stop_within_yards = has_stop;
      stop_within_yards = get_double lib travel (codes "stop_within_yards") zero_double;
    }

with_quest : Option Json → Intent → Intent
with_quest none intent = intent
with_quest (some quest) intent = record intent {
  has_quest = true;
  quest_id = get_uint64 quest (codes "quest_id") 0 % 2 ^ 32;
}

with_strategies : Option Json → Intent → Intent
with_strategies none intent = intent
with_strategies (some strategies) intent = record intent {
  strategies = read_changes [] (array_of (find_member strategies (codes "changes")));
}

-- The fields read after the filters.
with_rest : Library → Json → Intent → Intent
with_rest lib v intent = record intent {
  priority = to_int32 (get_int64 v (codes "priority") (pos 0));
  confidence = get_double lib v (codes "confidence") zero_double;
  expires_at_ms = get_int64 v (codes "expires_at_ms") (pos 0);
  source = get_string v (codes "source");
  rationale = get_string v (codes "rationale");
}

-- What is known of an intent before the first filters.
head_of : Json → Intent
head_of v = record new_intent {
  bot = read_bot (object_of (find_member v (codes "bot")));
  intent_id = get_string v (codes "intent_id");
  kind = get_string v (codes "kind");
}

-- One entry of `intents`; `none` is `continue`.
unfoldable pub read_intent : Library → Json → Option Intent
unfolding with_travel with_quest with_strategies with_rest head_of
read_intent lib v =
    let head = head_of v in
    let full = with_strategies (object_of (find_member v (codes "strategies"))) (
      with_quest (object_of (find_member v (codes "quest")))
        (with_travel lib (object_of (find_member v (codes "travel"))) head)) in
    if not (is_object v)
    then none
    else if not (is_known_intent_kind head.kind)
    then none
    else if is_zero_bot head.bot || is_empty head.intent_id
    then none
    else if bytes_eq head.kind intent_set_strategies && is_empty full.strategies
    then none
    else some (with_rest lib v full)

-- `push_back` of what an entry gave.
abbrev pub keep {ℓ} : {A : Type ℓ} → Option A → List A → List A
keep none xs = xs
keep (some x) xs = x ∷ xs

unfoldable pub read_intents : Library → List Json → List Intent
read_intents lib [] = []
read_intents lib (v ∷ vs) = keep (read_intent lib v) (read_intents lib vs)

read_error : Json → PlanError
read_error v = record {
  bot = read_bot (object_of (find_member v (codes "bot")));
  code = get_string v (codes "code");
  message = get_string v (codes "message");
}

read_errors : List Json → List PlanError
read_errors [] = []
read_errors (v ∷ vs) = if is_object v then read_error v ∷ read_errors vs else read_errors vs

-- `out` from a document that is an object.
unfoldable pub plan_response_of : Library → Json → PlanResponse
unfolding read_errors read_error
plan_response_of lib doc = record {
  contract_version = get_string doc (codes "contract_version");
  request_id = get_string doc (codes "request_id");
  intents = read_intents lib (array_of (find_member doc (codes "intents")));
  errors = read_errors (array_of (find_member doc (codes "errors")));
  plan_ms = elim (object_of (find_member doc (codes "stats"))) [
    | none ↦ pos 0
    | some stats ↦ get_int64 stats (codes "plan_ms") (pos 0)
  ];
  degraded_reason = elim (object_of (find_member doc (codes "stats"))) [
    | none ↦ []
    | some stats ↦ get_string stats (codes "degraded_reason")
  ];
}

unfoldable pub decode_plan_response : Library → Bytes → Result PlanResponse
decode_plan_response lib body = do doc ← parse_body lib body; ok (plan_response_of lib doc)

read_majors : List Json → List ℤ
read_majors [] = []
read_majors (integer z ∷ vs) = if is_int32 z then z ∷ read_majors vs else read_majors vs
read_majors (v ∷ vs) = read_majors vs

read_strings : List Json → List Bytes
read_strings [] = []
read_strings (string s ∷ vs) = s ∷ read_strings vs
read_strings (v ∷ vs) = read_strings vs

read_max_batch : Option Json → ℤ
read_max_batch (some (integer z)) = if is_int32 z then z else pos 0
read_max_batch _ = pos 0

contract_info_of : Json → ContractInfo
contract_info_of doc = record {
  version = get_string doc (codes "version");
  supported_majors = read_majors (array_of (find_member doc (codes "supported_majors")));
  known_intent_kinds = read_strings (array_of (find_member doc (codes "known_intent_kinds")));
  max_batch = read_max_batch (find_member doc (codes "max_batch"));
}

with_version : ContractInfo → Result ContractInfo
with_version info =
    if is_empty info.version then err (codes "contract response has no version") else ok info

unfoldable pub decode_contract_info : Library → Bytes → Result ContractInfo
unfolding contract_info_of with_version read_majors read_strings read_max_batch
decode_contract_info lib body = do doc ← parse_body lib body; with_version (contract_info_of doc)

same_int : ℤ → ℤ → Bool
same_int (pos a) (pos b) = a == b
same_int (negsuc a) (negsuc b) = a == b
same_int _ _ = false

unfoldable pub contract_major_supported : ContractInfo → ℤ → Bool
unfolding same_int
contract_major_supported info want_major = any (λ m. same_int m want_major) info.supported_majors
