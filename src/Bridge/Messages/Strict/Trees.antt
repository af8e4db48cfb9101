-- ===== src/Bridge/Messages/Strict/Trees.antt =====
-- The callback against a description of the value: no object has a key twice, and nothing lies
-- deeper than 32 levels.
use twow_repo.Base.{
  ℕ, suc, Bool, true, false, not, ◌&&◌, ◌||◌, List, [], ◌∷◌, ◌++◌, Option, none, some, ◌≡◌, ◌↔◌,
  refl, sym, ap, subst, ◌∙◌, arith, if◌then◌else◌, ltb, none_ne_some, Bytes, contains,
}
use twow_repo.Wire.Json.{
  Json, null, boolean, integer, real, string, array, object, Elements, end, element, Members, done,
  member,
}
use twow_repo.Bridge.Messages.Strict.{
  Event, object_start, key, object_end, other, Seen, deep, add_key, pop_back, on_event, on_events,
  nothing_seen, Parser, accepted_value, is_object, strict_json, may_be_parsed,
}

mutual
  -- The events of a value at a depth, as the parser's documentation has them: an object or array
  -- starts and ends at its own depth, and what it holds is one deeper.
  pub events_of : ℕ → Json → List (ℕ × Event)
  events_of depth (object ms) =
      (depth, object_start) ∷ (member_events (suc depth) ms ++ (depth, object_end) ∷ [])
  events_of depth (array vs) =
      (depth, other) ∷ (element_events (suc depth) vs ++ (depth, other) ∷ [])
  events_of depth null = (depth, other) ∷ []
  events_of depth (boolean b) = (depth, other) ∷ []
  events_of depth (integer z) = (depth, other) ∷ []
  events_of depth (real d) = (depth, other) ∷ []
  events_of depth (string s) = (depth, other) ∷ []

  pub member_events : ℕ → Members → List (ℕ × Event)
  member_events depth done = []
  member_events depth (member k v ms) =
      (depth, key k) ∷ (events_of depth v ++ member_events depth ms)

  pub element_events : ℕ → Elements → List (ℕ × Event)
  element_events depth end = []
  element_events depth (element v vs) = events_of depth v ++ element_events depth vs

mutual
  -- The value read as a tree: keys that are not in their object before, and depth at most 32.
  pub is_strict : ℕ → Json → Bool
  is_strict depth (object ms) = not (ltb 32 depth) && strict_members (suc depth) [] ms
  is_strict depth (array vs) = not (ltb 32 depth) && strict_elements (suc depth) vs
  is_strict depth null = not (ltb 32 depth)
  is_strict depth (boolean b) = not (ltb 32 depth)
  is_strict depth (integer z) = not (ltb 32 depth)
  is_strict depth (real d) = not (ltb 32 depth)
  is_strict depth (string s) = not (ltb 32 depth)

  pub strict_members : ℕ → List Bytes → Members → Bool
  strict_members depth keys done = true
  strict_members depth keys (member k v ms) =
      not (ltb 32 depth)
      && not (contains keys k)
      && is_strict depth v
      && strict_members depth (k ∷ keys) ms

  pub strict_elements : ℕ → Elements → Bool
  strict_elements depth end = true
  strict_elements depth (element v vs) = is_strict depth v && strict_elements depth vs

on_events-append :
    (es fs : List (ℕ × Event)) (s : Seen) → on_events (es ++ fs) s ≡ on_events fs (on_events es s)
unfolding on_events
on_events-append [] fs s = refl
on_events-append (e ∷ es) fs s = on_events-append es fs (on_event e s)

-- No flag is up.
abbrev clean : Seen → Bool
clean s = not s.duplicate && not s.too_deep

flags : (a b x : Bool) → (not a && not (b || x)) ≡ ((not a && not b) && not x)
flags a b x = ground arith

deep-clean : (depth : ℕ) (s : Seen) → clean (deep depth s) ≡ (clean s && not (ltb 32 depth))
deep-clean depth s = flags s.duplicate s.too_deep (ltb 32 depth)

key_flags : (a b c x : Bool) → (not (a || c) && not (b || x)) ≡ ((not a && not b) && not x && not c)
key_flags a b c x = ground arith

twice : (a x m : Bool) → (((a && x) && m) && x) ≡ (a && (x && m))
twice a x m = ground arith

chained : (a x n v m : Bool) → (((a && x && n) && v) && m) ≡ (a && (x && n && v && m))
chained a x n v m = ground arith

two_parts : (a x y : Bool) → ((a && x) && y) ≡ (a && (x && y))
two_parts a x y = ground arith

nothing_more : (a : Bool) → a ≡ (a && true)
nothing_more a = ground arith

-- What the events of a value leave: the keys of the objects around it, and no flag only if the
-- value is strict.
abbrev After : Bool → Seen → Seen → Type 0
After strict s t = (t.object_keys ≡ s.object_keys) × (clean t ≡ (clean s && strict))

abbrev Within : Bool → List (List Bytes) → Seen → Seen → Type 0
Within strict outer s t =
    ((keys : List Bytes) × (t.object_keys ≡ keys ∷ outer)) × (clean t ≡ (clean s && strict))

keyed-clean :
    (depth : ℕ) (k : Bytes) (keys : List Bytes) (outer : List (List Bytes)) (s : Seen)
    → s.object_keys ≡ keys ∷ outer
    → (clean (on_event (depth, key k) s) ≡ (clean s && not (ltb 32 depth) && not (contains keys k)))
      × ((on_event (depth, key k) s).object_keys ≡ (k ∷ keys) ∷ outer)
unfolding on_event add_key
keyed-clean depth k keys outer s e =
    let P = λ (all : List (List Bytes)).
      (clean (add_key k all (deep depth s))
        ≡ (clean s && not (ltb 32 depth) && not (contains keys k)))
      × ((add_key k all (deep depth s)).object_keys ≡ (k ∷ keys) ∷ outer) in
    subst P (sym e) (key_flags s.duplicate s.too_deep (contains keys k) (ltb 32 depth), refl)

object-After :
    (depth : ℕ) (s t : Seen) (strict : Bool)
    → Within strict s.object_keys (on_event (depth, object_start) s) t
    → After (not (ltb 32 depth) && strict) s (on_event (depth, object_end) t)
unfolding on_event
object-After depth s t strict ((keys, e), c) =
    let x = not (ltb 32 depth) in
    (
      ap pop_back e,
      deep-clean depth t
          ∙ ap (λ b. b && x) (c ∙ ap (λ b. b && strict) (deep-clean depth s))
          ∙ twice (clean s) x strict,
    )

array-After :
    (depth : ℕ) (s t : Seen) (strict : Bool)
    → After strict (on_event (depth, other) s) t
    → After (not (ltb 32 depth) && strict) s (on_event (depth, other) t)
unfolding on_event
array-After depth s t strict (e, c) =
    let x = not (ltb 32 depth) in
    (
      e,
      deep-clean depth t
          ∙ ap (λ b. b && x) (c ∙ ap (λ b. b && strict) (deep-clean depth s))
          ∙ twice (clean s) x strict,
    )

mutual
  unfolding on_events on_event events_of is_strict

  events_of-After :
      (depth : ℕ) (v : Json) (s : Seen)
      → After (is_strict depth v) s (on_events (events_of depth v) s)
  events_of-After depth (object ms) s =
      let es = member_events (suc depth) ms in
      let s1 = on_event (depth, object_start) s in
      subst (After (is_strict depth (object ms)) s)
        (sym (on_events-append es ((depth, object_end) ∷ []) s1))
        (object-After depth s (on_events es s1) (strict_members (suc depth) [] ms)
          (member_events-Within (suc depth) ms [] s.object_keys s1 refl))
  events_of-After depth (array vs) s =
      let es = element_events (suc depth) vs in
      let s1 = on_event (depth, other) s in
      subst (After (is_strict depth (array vs)) s)
        (sym (on_events-append es ((depth, other) ∷ []) s1))
        (array-After depth s (on_events es s1) (strict_elements (suc depth) vs)
          (element_events-After (suc depth) vs s1))
  events_of-After depth null s = (refl, deep-clean depth s)
  events_of-After depth (boolean b) s = (refl, deep-clean depth s)
  events_of-After depth (integer z) s = (refl, deep-clean depth s)
  events_of-After depth (real d) s = (refl, deep-clean depth s)
  events_of-After depth (string t) s = (refl, deep-clean depth s)

  member_events-Within :
      (depth : ℕ) (ms : Members) (keys : List Bytes) (outer : List (List Bytes)) (s : Seen)
      → s.object_keys ≡ keys ∷ outer
      → Within (strict_members depth keys ms) outer s (on_events (member_events depth ms) s)
  member_events-Within depth done keys outer s e = ((keys, e), nothing_more (clean s))
  member_events-Within depth (member k v ms) keys outer s e =
      let s1 = on_event (depth, key k) s in
      let t = on_events (events_of depth v) s1 in
      let (c, opened) = keyed-clean depth k keys outer s e in
      let (same, d) = events_of-After depth v s1 in
      let (left, f) = member_events-Within depth ms (k ∷ keys) outer t (same ∙ opened) in
      let strict = is_strict depth v in
      let others = strict_members depth (k ∷ keys) ms in
      subst (Within (strict_members depth keys (member k v ms)) outer s)
        (sym (on_events-append (events_of depth v) (member_events depth ms) s1))
        (
          left,
          f
              ∙ ap (λ b. b && others) (d ∙ ap (λ b. b && strict) c)
              ∙ chained (clean s) (not (ltb 32 depth)) (not (contains keys k)) strict others,
        )

  element_events-After :
      (depth : ℕ) (vs : Elements) (s : Seen)
      → After (strict_elements depth vs) s (on_events (element_events depth vs) s)
  element_events-After depth end s = (refl, nothing_more (clean s))
  element_events-After depth (element v vs) s =
      let t = on_events (events_of depth v) s in
      let (same, d) = events_of-After depth v s in
      let (others_same, f) = element_events-After depth vs t in
      let strict = is_strict depth v in
      let others = strict_elements depth vs in
      subst (After (strict_elements depth (element v vs)) s)
        (sym (on_events-append (events_of depth v) (element_events depth vs) s))
        (others_same ∙ same, f ∙ ap (λ b. b && others) d ∙ two_parts (clean s) strict others)

three_tests :
    (p c o : Bool) (v : Json)
    → ((if p then (if c && o then some v else none) else none) ≡ some v)
      ↔ ((p ≡ true) × (c ≡ true) × (o ≡ true))
three_tests true true true v = ((λ _. (refl, refl, refl)), (λ _. refl))
three_tests true true false v = ((λ e. absurd (none_ne_some e)), (λ h. absurd (cc)))
three_tests true false o v = ((λ e. absurd (none_ne_some e)), (λ h. absurd (cc)))
three_tests false c o v = ((λ e. absurd (none_ne_some e)), (λ h. absurd (cc)))

-- With a parser that calls back for the events of the value it gives, `StrictJson` takes a line
-- exactly when its bytes may be parsed and the value is an object in which no object has a key
-- twice and nothing lies deeper than 32 levels; and the value it gives is that one.
pub strict_json_iff :
    (p : Parser) (line : Bytes) (value : Json)
    → p.parse line ≡ some (events_of 0 value, value)
    → (strict_json p line ≡ some value)
      ↔ ((may_be_parsed line ≡ true) × (is_strict 0 value ≡ true) × (is_object value ≡ true))
unfolding strict_json accepted_value
strict_json_iff p line value h =
    let may = may_be_parsed line in
    let strict = is_strict 0 value in
    let is_one = is_object value in
    let Accepts =
      λ (o : Option Json). (o ≡ some value) ↔ ((may ≡ true) × (strict ≡ true) × (is_one ≡ true)) in
    subst (λ o. Accepts (if may then accepted_value o else none)) (sym h)
      (subst (λ c. Accepts (if may then (if c && is_one then some value else none) else none))
        (sym (events_of-After 0 value nothing_seen).1) (three_tests may strict is_one value))
