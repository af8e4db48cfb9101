-- ===== src/Pipeline/Outcomes/Bounds.antt =====
-- The queue keeps the newest outcomes, never more than four, and counts what it loses.
use twow_repo.Base.{
  zero, suc, ap, inl, inr, Bool-cases, ℕ, ◌+◌, ◌-◌, ◌%◌, ◌^◌, ◌≤◌, false, List, [], ◌∷◌, ◌++◌, leb,
  length, drop, Bytes, is_empty, ◌≡◌, refl, arith, length-append,
}
use twow_repo.Base.Int.{ℤ}
use twow_repo.Wire.Types.{IntentOutcome}
use twow_repo.Pipeline.State.{BotPlanState, counter_up}
use twow_repo.Pipeline.Outcomes.{max_queued_outcomes, make_room, store_outcome, outcome_of}

drop_at {ℓ} : {A : Type ℓ} (m n : ℕ) (xs : List A) → m ≡ n → drop m xs ≡ drop n xs
drop_at m n xs e = ap (λ k. drop k xs) e

drop-append {ℓ} :
    {A : Type ℓ} (n : ℕ) (xs ys : List A) → n ≤ length xs → drop n (xs ++ ys) ≡ drop n xs ++ ys
drop-append zero xs ys h = refl
drop-append (suc n) [] ys h = absurd (omega arith)
drop-append (suc n) (x ∷ xs) ys h = drop-append n xs ys (omega arith)

-- The three newest.
make_room-drop : (os : List IntentOutcome) (n : ℕ) → (make_room os n).0 ≡ drop (length os - 3) os
unfolding make_room
make_room-drop [] n = refl
make_room-drop (o ∷ os) n = elim (Bool-cases (leb max_queued_outcomes (length (o ∷ os)))) [
  | inl q ↦ rw (
    q,
    drop_at (suc (length os) - 3) (suc (length os - 3)) (o ∷ os) (ground arith),
    make_room-drop os (counter_up n),
  )
  | inr q ↦ rw (q, drop_at (suc (length os) - 3) 0 (o ∷ os) (ground arith))
]

make_room-length : (os : List IntentOutcome) (n : ℕ) → length (make_room os n).0 ≤ 3
unfolding make_room
make_room-length [] n = omega arith
make_room-length (o ∷ os) n = ground (arith, make_room-length os (counter_up n))

make_room-count :
    (os : List IntentOutcome) (n : ℕ)
    → ((make_room os n).1 + length (make_room os n).0) % 2 ^ 32 ≡ (n + length os) % 2 ^ 32
unfolding make_room counter_up
make_room-count [] n = omega arith
make_room-count (o ∷ os) n = ground (arith, make_room-count os (counter_up n))

store_outcome-queue :
    (now : ℤ) (s : BotPlanState) (intent_id kind result reason poi_id : Bytes)
    → is_empty intent_id ≡ false
    → (store_outcome now s intent_id kind result reason poi_id).outcomes
      ≡ (make_room s.outcomes s.outcomes_dropped).0
        ++ outcome_of now intent_id kind result reason poi_id ∷ []
unfolding store_outcome
store_outcome-queue now s intent_id kind result reason poi_id named = rw named

store_outcome-dropped :
    (now : ℤ) (s : BotPlanState) (intent_id kind result reason poi_id : Bytes)
    → is_empty intent_id ≡ false
    → (store_outcome now s intent_id kind result reason poi_id).outcomes_dropped
      ≡ (make_room s.outcomes s.outcomes_dropped).1
unfolding store_outcome
store_outcome-dropped now s intent_id kind result reason poi_id named = rw named

-- After an outcome that names an intent is stored, the queue is the three newest of what it held
-- and the outcome, whatever it held before: at most four.
pub store_outcome-newest :
    (now : ℤ) (s : BotPlanState) (intent_id kind result reason poi_id : Bytes)
    → is_empty intent_id ≡ false
    → ((store_outcome now s intent_id kind result reason poi_id).outcomes
        ≡ drop (length s.outcomes - 3) s.outcomes
          ++ outcome_of now intent_id kind result reason poi_id ∷ [])
      × (length (store_outcome now s intent_id kind result reason poi_id).outcomes
          ≤ max_queued_outcomes)
store_outcome-newest now s intent_id kind result reason poi_id named =
    let queue = store_outcome-queue now s intent_id kind result reason poi_id named in
    let o = outcome_of now intent_id kind result reason poi_id in
    let room = make_room s.outcomes s.outcomes_dropped in
    (
      rw (queue, make_room-drop s.outcomes s.outcomes_dropped),
      rw (queue, length-append room.0 (o ∷ [])) omega
          (arith, make_room-length s.outcomes s.outcomes_dropped),
    )

-- Nothing is lost that is not counted: the count of the lost and the length of the queue grow by
-- one together when an outcome that names an intent is stored, up to the wrap of the 32-bit count.
pub store_outcome-counted :
    (now : ℤ) (s : BotPlanState) (intent_id kind result reason poi_id : Bytes)
    → is_empty intent_id ≡ false
    → ((store_outcome now s intent_id kind result reason poi_id).outcomes_dropped
          + length (store_outcome now s intent_id kind result reason poi_id).outcomes)
        % 2 ^ 32
      ≡ (s.outcomes_dropped + length s.outcomes + 1) % 2 ^ 32
store_outcome-counted now s intent_id kind result reason poi_id named =
    let room = make_room s.outcomes s.outcomes_dropped in
    rw
      (
        store_outcome-queue now s intent_id kind result reason poi_id named,
        store_outcome-dropped now s intent_id kind result reason poi_id named,
        length-append room.0 (outcome_of now intent_id kind result reason poi_id ∷ []),
      )
      omega (arith, make_room-count s.outcomes s.outcomes_dropped)
