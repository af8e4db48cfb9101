-- ===== src/Pipeline/Counters/Standing.antt =====
-- `g_standingBots` against the number of bots that it is meant to count: one call of each sort.
use twow_repo.Base.{
  ℕ, suc, ◌+◌, ◌%◌, ◌^◌, ◌≤◌, ◌<◌, Bool, true, false, not, ◌&&◌, [], ◌∷◌, Option, none, some,
  if◌then◌else◌, Bytes, ◌≡◌, refl, ap, arith,
}
use twow_repo.Base.Int.{ℤ}
use twow_repo.Wire.Types.{Intent}
use twow_repo.Pipeline.State.{
  BotPlanState, World, find_state, put_state, erase_state, state_at, counter_up, counter_down,
  BatchExchange, ResolvedPoi, is_standing,
}
use twow_repo.Pipeline.State.Store.{
  bit_at, count_states, count_states-erase_state, if_found-keeps, if-keeps,
}
use twow_repo.Pipeline.Outcomes.{store_outcome, record_outcome}
use twow_repo.Pipeline.Intents.{
  Clocks, take_travel_from, take_travel_intent, take_applied_from, take_applied_intent,
}
use twow_repo.Pipeline.Answer.{Waits, take_answer_from, take_answer}
use twow_repo.Pipeline.Batch.{refuse_locally}
use twow_repo.Pipeline.State.Store.{bit}
use twow_repo.Pipeline.Travel.{
  note_travel_started, start_travel, stop_travel, end_travel, uncount, forget,
}
use twow_repo.Pipeline.Answer.{becomes_standing}
use twow_repo.Pipeline.Counters.Kept.{
  store_outcome-conditions, take_travel_from-conditions, take_applied_from-conditions,
  count_states-same, count_states-same_at, count_states-put_at,
}

-- The number of bots with a standing intent that waits, or with strategies taken over.
abbrev pub standing_count : World → ℕ
standing_count w = count_states is_standing w.states

-- No bot is missed by the count, and the count is below `n`.
abbrev pub IsCoveredBy : ℕ → World → Type 0
IsCoveredBy n w = (standing_count w ≤ w.standing_bots) × (w.standing_bots < n)

-- After a call the count may have grown by one.
abbrev pub Covers : ℕ → World → Type 0
Covers n w = IsCoveredBy (suc n) w

pub weaken : (n : ℕ) (w : World) → IsCoveredBy n w → Covers n w
weaken n w h = (h.0, omega (arith, h.1))

-- A write that keeps the condition.
pub covers-put :
    (n : ℕ) (w : World) (raw : ℕ) (new s : BotPlanState)
    → IsCoveredBy n w
    → find_state raw w.states ≡ some s
    → is_standing new ≡ is_standing s
    → (count_states is_standing (put_state raw new w.states) ≤ w.standing_bots)
      × (w.standing_bots < suc n)
covers-put n w raw new s h e same = (
  omega (arith, h.0, count_states-same is_standing raw new s w.states e same),
  omega (arith, h.1),
)

pub covers-put_at :
    (n : ℕ) (w : World) (raw : ℕ) (new : BotPlanState)
    → IsCoveredBy n w
    → is_standing new ≡ is_standing (state_at raw w.states)
    → (count_states is_standing (put_state raw new w.states) ≤ w.standing_bots)
      × (w.standing_bots < suc n)
covers-put_at n w raw new h same = (
  omega (arith, h.0, count_states-same_at is_standing raw new w.states refl same),
  omega (arith, h.1),
)

pub note_travel_started-Covers :
    (n now : ℕ) (bot : Option ℕ) (intent_id kind poi_id : Bytes) (destination : ℕ) (w : World)
    → IsCoveredBy n w
    → Covers n (note_travel_started now bot intent_id kind poi_id destination w)
unfolding note_travel_started start_travel
note_travel_started-Covers n now none intent_id kind poi_id destination w h = weaken n w h
note_travel_started-Covers n now (some raw) [] kind poi_id destination w h = weaken n w h
note_travel_started-Covers n now (some raw) (c ∷ cs) kind poi_id destination w h =
    if_found-keeps (Covers n) (find_state raw w.states) w _ (weaken n w h)
      (λ s e. covers-put n w raw (start_travel now (c ∷ cs) kind poi_id destination s) s h e refl)

pub end_travel-Covers :
    (n : ℕ) (now : ℤ) (raw : ℕ) (result reason : Bytes) (w : World)
    → IsCoveredBy n w
    → Covers n (end_travel now raw result reason w)
unfolding end_travel stop_travel
end_travel-Covers n now raw result reason w h =
    if_found-keeps (Covers n) (find_state raw w.states) w _ (weaken n w h) (λ s e.
      if-keeps (Covers n) (not s.has_active_travel) w _ (λ q. weaken n w h)
        (λ q. covers-put n w raw (stop_travel now result reason s) s h e (
          ap (λ b. b.1)
            (store_outcome-conditions now s s.active_intent_id s.active_kind result reason
              s.active_poi_id))))

pub forget-Covers : (n raw : ℕ) (w : World) → n < 2 ^ 32 → IsCoveredBy n w → Covers n (forget raw w)
unfolding forget uncount counter_down
forget-Covers n raw w small h = go (find_state raw w.states) refl
  where
    go :
        (o : Option BotPlanState)
        → find_state raw w.states ≡ o
        → (count_states is_standing (erase_state raw w.states) ≤ (uncount o w).standing_bots)
          × ((uncount o w).standing_bots < suc n)
    go none e =
        let c = count_states-erase_state is_standing raw w.states in
        let b = ap (bit_at is_standing) e in (omega (arith, h.0, c, b), omega (arith, h.1))
    go (some s) e =
        let c = count_states-erase_state is_standing raw w.states in
        let b = ap (bit_at is_standing) e in
        (ground (arith, h.0, h.1, c, b), ground (arith, h.0, h.1, c, b))

pub record_outcome-Covers :
    (n : ℕ) (now : ℤ) (bot : Option ℕ) (intent_id kind result reason poi_id : Bytes) (w : World)
    → IsCoveredBy n w
    → Covers n (record_outcome now bot intent_id kind result reason poi_id w)
unfolding record_outcome
record_outcome-Covers n now none intent_id kind result reason poi_id w h = weaken n w h
record_outcome-Covers n now (some raw) [] kind result reason poi_id w h = weaken n w h
record_outcome-Covers n now (some raw) (c ∷ cs) kind result reason poi_id w h =
    if_found-keeps (Covers n) (find_state raw w.states) w _ (weaken n w h) (λ s e.
      covers-put n w raw (store_outcome now s (c ∷ cs) kind result reason poi_id) s h e
        (ap (λ b. b.1) (store_outcome-conditions now s (c ∷ cs) kind result reason poi_id)))

pub take_travel_intent-Covers :
    (n ttl : ℕ) (c : Clocks) (bot : Option ℕ) (w : World)
    → IsCoveredBy n w
    → Covers n (take_travel_intent ttl c bot w).0
unfolding take_travel_intent
take_travel_intent-Covers n ttl c none w h = weaken n w h
take_travel_intent-Covers n ttl c (some raw) w h =
    if_found-keeps (λ (r : World × Option (Intent × ResolvedPoi)). Covers n r.0)
      (find_state raw w.states) (w, none) _ (weaken n w h)
      (λ s e.
        covers-put n w raw (take_travel_from ttl c s).0 s h e
          (ap (λ b. b.1) (take_travel_from-conditions ttl c s)))

pub take_applied_intent-Covers :
    (n : ℕ) (c : Clocks) (bot : Option ℕ) (w : World)
    → IsCoveredBy n w
    → Covers n (take_applied_intent c bot w).0
unfolding take_applied_intent
take_applied_intent-Covers n c none w h = weaken n w h
take_applied_intent-Covers n c (some raw) w h =
    if_found-keeps (λ (r : World × Option Intent). Covers n r.0) (find_state raw w.states) (w, none)
      _ (weaken n w h)
      (λ s e.
        covers-put n w raw (take_applied_from c s).0 s h e
          (ap (λ b. b.1) (take_applied_from-conditions c s)))

pub take_answer-Covers :
    (n : ℕ) (cfg : Waits) (now realm guid raw : ℕ) (x : BatchExchange) (w : World)
    → n < 2 ^ 32
    → IsCoveredBy n w
    → Covers n (take_answer cfg now realm guid raw x w)
unfolding take_answer becomes_standing counter_up
take_answer-Covers n cfg now realm guid raw x w small h =
    let before = state_at raw w.states in
    let after = take_answer_from cfg now realm guid x before in
    let c = count_states-put_at is_standing raw after w.states refl in
    go (is_standing before) (is_standing after) c
  where
    go :
        (b a : Bool)
        → count_states is_standing (
              put_state raw
                (take_answer_from cfg now realm guid x (state_at raw w.states))
                w.states)
            + bit b
          ≡ standing_count w + bit a
        → (count_states is_standing (
              put_state raw
                (take_answer_from cfg now realm guid x (state_at raw w.states))
                w.states)
            ≤ (if not b && a then (w.standing_bots + 1) % 2 ^ 32 else w.standing_bots))
          × ((if not b && a then (w.standing_bots + 1) % 2 ^ 32 else w.standing_bots) < suc n)
    go true true c = (omega (arith, h.0, h.1, c), omega (arith, h.1))
    go true false c = (omega (arith, h.0, h.1, c), omega (arith, h.1))
    go false true c = (omega (arith, h.0, h.1, c, small), omega (arith, h.1, small))
    go false false c = (omega (arith, h.0, h.1, c), omega (arith, h.1))

pub refuse_locally-Covers :
    (n now backoff_ms raw : ℕ) (w : World)
    → IsCoveredBy n w
    → Covers n (refuse_locally now backoff_ms raw w)
unfolding refuse_locally
refuse_locally-Covers n now backoff_ms raw w h = covers-put_at n w raw _ h refl
