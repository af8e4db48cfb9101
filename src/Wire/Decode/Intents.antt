-- ===== src/Wire/Decode/Intents.antt =====
-- What every intent of a decoded plan is fit for, and that an entry costs only itself.
use twow_repo.Base.{
  ◌<◌, ◌^◌, Bool, true, false, not, ◌&&◌, ◌||◌, List, [], ◌∷◌, Option, none, some, ◌≡◌, refl, ◌∙◌,
  arith, inl, inr, if◌then◌else◌, Bool-cases, codes, bytes_eq, is_empty, All,
}
use twow_repo.Wire.Vocabulary.{is_known_intent_kind, intent_set_strategies}
use twow_repo.Wire.Json.{Json, Library, find_member}
use twow_repo.Wire.Types.{is_zero_bot, Intent}
use twow_repo.Wire.Decode.{
  read_bot, with_travel, with_quest, with_strategies, with_rest, head_of, read_intent, read_intents,
  is_object, object_of, array_of,
}
use twow_repo.Wire.Decode.Changes.{AreStrategies, read_changes_sound}

-- What the rest of the module may rely on.
pub record IsAcceptable (intent : Intent) : Type 0 where
  pub known : is_known_intent_kind intent.kind ≡ true
  pub addressed : is_zero_bot intent.bot ≡ false
  pub realm_fits : intent.bot.realm < 2 ^ 32
  pub named : is_empty intent.intent_id ≡ false
  pub strategies_sound : AreStrategies intent.strategies
  pub has_work : (bytes_eq intent.kind intent_set_strategies && is_empty intent.strategies) ≡ false

read_bot-realm : (v : Option Json) → (read_bot v).realm < 2 ^ 32
unfolding read_bot
read_bot-realm none = omega arith
read_bot-realm (some v) = omega arith

-- What `with_travel` and the others leave alone.
record SameHead (x y : Intent) : Type 0 where
  bot : y.bot ≡ x.bot
  intent_id : y.intent_id ≡ x.intent_id
  kind : y.kind ≡ x.kind

with_travel-SameHead :
    (lib : Library) (t : Option Json) (x : Intent) → SameHead x (with_travel lib t x)
unfolding with_travel
with_travel-SameHead lib none x = record { bot = refl; intent_id = refl; kind = refl }
with_travel-SameHead lib (some t) x = record { bot = refl; intent_id = refl; kind = refl }

with_quest-SameHead : (q : Option Json) (x : Intent) → SameHead x (with_quest q x)
unfolding with_quest
with_quest-SameHead none x = record { bot = refl; intent_id = refl; kind = refl }
with_quest-SameHead (some q) x = record { bot = refl; intent_id = refl; kind = refl }

with_strategies-SameHead : (s : Option Json) (x : Intent) → SameHead x (with_strategies s x)
unfolding with_strategies
with_strategies-SameHead none x = record { bot = refl; intent_id = refl; kind = refl }
with_strategies-SameHead (some s) x = record { bot = refl; intent_id = refl; kind = refl }

no_strategies : AreStrategies []
no_strategies = record { within_limit = omega arith; can_be_done = tt; no_twin = tt }

with_travel-strategies :
    (lib : Library) (t : Option Json) (x : Intent) → (with_travel lib t x).strategies ≡ x.strategies
unfolding with_travel
with_travel-strategies lib none x = refl
with_travel-strategies lib (some t) x = refl

with_quest-strategies : (q : Option Json) (x : Intent) → (with_quest q x).strategies ≡ x.strategies
unfolding with_quest
with_quest-strategies none x = refl
with_quest-strategies (some q) x = refl

with_strategies-AreStrategies :
    (s : Option Json) (x : Intent)
    → AreStrategies x.strategies
    → AreStrategies (with_strategies s x).strategies
unfolding with_strategies
with_strategies-AreStrategies none x a = a
with_strategies-AreStrategies (some s) x a = read_changes_sound (array_of (find_member s _))

-- The intent before the last fields are read.
abbrev full_of : Library → Json → Intent
full_of lib v = with_strategies (object_of (find_member v (codes "strategies"))) (
    with_quest (object_of (find_member v (codes "quest")))
      (with_travel lib (object_of (find_member v (codes "travel"))) (head_of v)))

full_of-SameHead : (lib : Library) (v : Json) → SameHead (head_of v) (full_of lib v)
full_of-SameHead lib v =
    let t = with_travel-SameHead lib (object_of (find_member v (codes "travel"))) (head_of v) in
    let q =
      with_quest-SameHead (object_of (find_member v (codes "quest")))
        (with_travel lib _ (head_of v)) in
    let s =
      with_strategies-SameHead (object_of (find_member v (codes "strategies"))) (with_quest _ _) in
    record {
      bot = s.bot ∙ q.bot ∙ t.bot;
      intent_id = s.intent_id ∙ q.intent_id ∙ t.intent_id;
      kind = s.kind ∙ q.kind ∙ t.kind;
    }

full_of-AreStrategies : (lib : Library) (v : Json) → AreStrategies (full_of lib v).strategies
full_of-AreStrategies lib v =
    with_strategies-AreStrategies (object_of (find_member v (codes "strategies"))) _
      (rw (with_quest-strategies, with_travel-strategies) (unfold head_of in no_strategies))

-- The filters of one entry, in order.
passes_filters : Library → Json → Bool
passes_filters lib v =
    is_object v
    && is_known_intent_kind (head_of v).kind
    && not (is_zero_bot (head_of v).bot || is_empty (head_of v).intent_id)
    && not (bytes_eq (head_of v).kind intent_set_strategies && is_empty (full_of lib v).strategies)

read_intent-passes :
    (lib : Library) (v : Json)
    → read_intent lib v
      ≡ (if passes_filters lib v then some (with_rest lib v (full_of lib v)) else none)
unfolding read_intent passes_filters
read_intent-passes lib v = ground arith

passing-IsAcceptable :
    (lib : Library) (v : Json)
    → passes_filters lib v ≡ true
    → IsAcceptable (with_rest lib v (full_of lib v))
unfolding passes_filters with_rest
passing-IsAcceptable lib v p =
    let h = full_of-SameHead lib v in
    record {
      known = rw h.kind (ground arith);
      addressed = rw h.bot (ground arith);
      realm_fits =
          rw h.bot (unfold head_of in read_bot-realm (object_of (find_member v (codes "bot"))));
      named = rw h.intent_id (ground arith);
      strategies_sound = full_of-AreStrategies lib v;
      has_work = rw h.kind (ground arith);
    }

-- Every intent that comes out of a reply has a known kind, a bot, a name, and sound strategies,
-- which are not empty where they are its work.
pub read_intents-IsAcceptable :
    (lib : Library) (vs : List Json) → All IsAcceptable (read_intents lib vs)
unfolding read_intents
read_intents-IsAcceptable lib [] = tt
read_intents-IsAcceptable lib (v ∷ vs) = elim (Bool-cases (passes_filters lib v)) [
  | inl e ↦
      rw (read_intent-passes lib v, e)
        (passing-IsAcceptable lib v e, read_intents-IsAcceptable lib vs)
  | inr e ↦ rw (read_intent-passes lib v, e) (read_intents-IsAcceptable lib vs)
]
