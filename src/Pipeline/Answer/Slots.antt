-- ===== src/Pipeline/Answer/Slots.antt =====
-- The loop that stops early does what two independent searches do.
use twow_repo.Base.{
  ℕ, Bool, true, false, not, ◌&&◌, List, [], ◌∷◌, Option, none, some, find, if◌then◌else◌, ◌≡◌,
  refl, sym, ap, ◌∙◌, arith,
}
use twow_repo.Wire.Vocabulary.{is_standing_kind}
use twow_repo.Wire.Types.{Intent}
use twow_repo.Pipeline.State.{BotPlanState}
use twow_repo.Pipeline.Answer.{is_addressed, place, take_intents}

-- What is in a slot.
abbrev pub errand_in : BotPlanState → Option Intent
errand_in s = if s.has_intent then some s.intent else none

abbrev pub standing_in : BotPlanState → Option Intent
standing_in s = if s.has_standing_intent then some s.standing_intent else none

abbrev pub or_else {ℓ} : {A : Type ℓ} → Option A → Option A → Option A
or_else (some a) o = some a
or_else none o = o

abbrev pub is_errand_for : ℕ → ℕ → Intent → Bool
is_errand_for realm guid i = is_addressed realm guid i && not (is_standing_kind i.kind)

abbrev pub is_standing_for : ℕ → ℕ → Intent → Bool
is_standing_for realm guid i = is_addressed realm guid i && is_standing_kind i.kind

or_else-find {ℓ} :
    {A : Type ℓ} (p : A → Bool) (o : Option A) (x : A) (xs : List A)
    → or_else (or_else o (if p x then some x else none)) (find p xs) ≡ or_else o (find p (x ∷ xs))
or_else-find p (some a) x xs = refl
or_else-find p none x xs = ground arith

errand_full :
    (s : BotPlanState) (o : Option Intent)
    → s.has_intent ≡ true
    → or_else (errand_in s) o ≡ errand_in s
errand_full s o h = ground arith

standing_full :
    (s : BotPlanState) (o : Option Intent)
    → s.has_standing_intent ≡ true
    → or_else (standing_in s) o ≡ standing_in s
standing_full s o h = ground arith

place-errand :
    (realm guid : ℕ) (i : Intent) (s : BotPlanState)
    → errand_in (place realm guid i s)
      ≡ or_else (errand_in s) (if is_errand_for realm guid i then some i else none)
unfolding place
place-errand realm guid i s = ground arith

place-standing :
    (realm guid : ℕ) (i : Intent) (s : BotPlanState)
    → standing_in (place realm guid i s)
      ≡ or_else (standing_in s) (if is_standing_for realm guid i then some i else none)
unfolding place
place-standing realm guid i s = ground arith

-- One turn of the loop, for what is read off the state and keeps its value once it is full.
turn {ℓ} :
    {A : Type ℓ} (slot : BotPlanState → Option A) (found : Option A) (stop : Bool)
    (placed rest : BotPlanState)
    → (stop ≡ true → or_else (slot placed) found ≡ slot placed)
    → slot rest ≡ or_else (slot placed) found
    → slot (if stop then placed else rest) ≡ or_else (slot placed) found
turn slot found true placed rest full h = sym (full refl)
turn slot found false placed rest full h = h

stops : ℕ → ℕ → Intent → BotPlanState → Bool
stops realm guid i placed =
    is_addressed realm guid i
    && not (is_standing_kind i.kind)
    && placed.has_intent
    && placed.has_standing_intent

take_intents-errand :
    (realm guid : ℕ) (is : List Intent) (s : BotPlanState)
    → errand_in (take_intents realm guid is s)
      ≡ or_else (errand_in s) (find (is_errand_for realm guid) is)
unfolding take_intents stops
take_intents-errand realm guid [] s = ground arith
take_intents-errand realm guid (i ∷ is) s =
    let placed = place realm guid i s in
    let found = find (is_errand_for realm guid) is in
    turn errand_in found (stops realm guid i placed) placed (take_intents realm guid is placed)
      (λ h. errand_full placed found (ground arith)) (take_intents-errand realm guid is placed)
    ∙ (ap (λ o. or_else o found) (place-errand realm guid i s)
        ∙ or_else-find (is_errand_for realm guid) (errand_in s) i is)

take_intents-standing :
    (realm guid : ℕ) (is : List Intent) (s : BotPlanState)
    → standing_in (take_intents realm guid is s)
      ≡ or_else (standing_in s) (find (is_standing_for realm guid) is)
unfolding take_intents stops
take_intents-standing realm guid [] s = ground arith
take_intents-standing realm guid (i ∷ is) s =
    let placed = place realm guid i s in
    let found = find (is_standing_for realm guid) is in
    turn standing_in found (stops realm guid i placed) placed (take_intents realm guid is placed)
      (λ h. standing_full placed found (ground arith)) (take_intents-standing realm guid is placed)
    ∙ (ap (λ o. or_else o found) (place-standing realm guid i s)
        ∙ or_else-find (is_standing_for realm guid) (standing_in s) i is)

-- After the loop each slot holds what it held, or, if it was empty, the first intent of its sort
-- in the reply that is addressed to the bot: an errand never takes the place of a standing
-- intent, nor the other way, and nothing that is addressed to another bot is taken.
pub take_intents-first :
    (realm guid : ℕ) (is : List Intent) (s : BotPlanState)
    → (errand_in (take_intents realm guid is s)
        ≡ or_else (errand_in s) (find (is_errand_for realm guid) is))
      × (standing_in (take_intents realm guid is s)
          ≡ or_else (standing_in s) (find (is_standing_for realm guid) is))
take_intents-first realm guid is s =
    (take_intents-errand realm guid is s, take_intents-standing realm guid is s)
