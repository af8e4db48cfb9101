-- ===== src/Pipeline/Batch/Handover.antt =====
-- Who gets the exchange of a batch that is sent, and what the removal of a bot leaves of a batch.
use twow_repo.Base.{
  ℕ, Bool, true, false, ◌||◌, List, [], ◌∷◌, Option, none, some, ◌==◌, any, if◌then◌else◌, ◌≡◌,
  refl, ap, ◌∙◌, inl, inr, Bool-cases, arith,
}
use twow_repo.Pipeline.State.{BotPlanState, States, find_state, put_state}
use twow_repo.Pipeline.State.Store.{find_state-put_state_at}
use twow_repo.Pipeline.Batch.{is_awaiting_plan, hand_to, hand_over, hand_over_all}

-- What a bot of the batch, or a bot that is not of it, has afterwards.
abbrev pub served : ℕ → Bool → Option BotPlanState → Option BotPlanState
served exchange b none = none
served exchange false (some s) = some s
served exchange true (some s) =
    some (if is_awaiting_plan s.phase then record s { batch = some exchange } else s)

served-served :
    (exchange : ℕ) (a b : Bool) (o : Option BotPlanState)
    → served exchange b (served exchange a o) ≡ served exchange (a || b) o
served-served exchange a b none = refl
served-served exchange false b (some s) = refl
served-served exchange true false (some s) = refl
served-served exchange true true (some s) = ground arith

served_other :
    (exchange : ℕ) (b : Bool) (o : Option BotPlanState) → b ≡ false → o ≡ served exchange b o
served_other exchange true o h = ground arith
served_other exchange false none h = refl
served_other exchange false (some s) h = refl

find_state_same :
    (key g : ℕ) (states : States) → (key == g) ≡ true → find_state key states ≡ find_state g states
find_state_same key g states h = ap (λ k. find_state k states) (ground arith)

find_state-hand_to :
    (exchange key g : ℕ) (states : States) (o : Option BotPlanState)
    → find_state g states ≡ o
    → find_state key (hand_to exchange g o states)
      ≡ served exchange (key == g) (find_state key states)
unfolding hand_to
find_state-hand_to exchange key g states none e = elim (Bool-cases (key == g)) [
  | inl q ↦ rw (q, find_state_same key g states q, e)
  | inr q ↦ served_other exchange (key == g) (find_state key states) q
]
find_state-hand_to exchange key g states (some s) e =
    go (is_awaiting_plan s.phase) (key == g) refl refl
  where
    new : BotPlanState
    new = record s { batch = some exchange }

    go :
        (p b : Bool)
        → is_awaiting_plan s.phase ≡ p
        → (key == g) ≡ b
        → find_state key (if p then put_state g new states else states)
          ≡ served exchange b (find_state key states)
    go true true p q =
        find_state-put_state_at key g new states ∙ rw (q, find_state_same key g states q, e, p) refl
    go true false p q =
        find_state-put_state_at key g new states
        ∙ rw (q) (served_other exchange false (find_state key states) refl)
    go false true p q = rw (find_state_same key g states q, e, p) refl
    go false false p q = served_other exchange false (find_state key states) refl

find_state-hand_over :
    (exchange key g : ℕ) (states : States)
    → find_state key (hand_over exchange states g)
      ≡ served exchange (key == g) (find_state key states)
unfolding hand_over
find_state-hand_over exchange key g states =
    find_state-hand_to exchange key g states (find_state g states) refl

-- After a batch is sent, each of its bots that still has a state and waits for a plan holds the
-- batch's exchange, and every other bot, and everything else of a state, is as it was.
pub find_state-hand_over_all :
    (exchange key : ℕ) (guids : List ℕ) (states : States)
    → find_state key (hand_over_all exchange guids states)
      ≡ served exchange (any (λ g. key == g) guids) (find_state key states)
unfolding hand_over_all
find_state-hand_over_all exchange key [] states = go (find_state key states)
  where
    go : (o : Option BotPlanState) → o ≡ served exchange false o
    go none = refl
    go (some s) = refl
find_state-hand_over_all exchange key (g ∷ gs) states =
    find_state-hand_over_all exchange key gs (hand_over exchange states g)
    ∙ (ap (served exchange (any (λ k. key == k) gs)) (find_state-hand_over exchange key g states)
        ∙ served-served exchange (key == g) (any (λ k. key == k) gs) (find_state key states))
