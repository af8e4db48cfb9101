-- ===== src/Pipeline/Counters/Active.antt =====
-- `g_activeTravels` is the number of bots that are on an errand.
use twow_repo.Base.{
  ℕ, ◌+◌, ◌%◌, ◌-◌, ◌^◌, false, not, [], ◌∷◌, Option, none, some, if◌then◌else◌, Bytes, ◌≡◌, refl,
  ap, arith,
}
use twow_repo.Base.Int.{ℤ}
use twow_repo.Wire.Types.{Intent}
use twow_repo.Pipeline.State.{
  BotPlanState, World, find_state, put_state, erase_state, state_at, counter_up, counter_down,
}
use twow_repo.Pipeline.State.Store.{
  bit_at, count_states, count_states-put_state, count_states-erase_state,
}
use twow_repo.Pipeline.State.Store.{if_found-keeps, if-keeps}
use twow_repo.Pipeline.Outcomes.{store_outcome, record_outcome}
use twow_repo.Pipeline.Intents.{
  Clocks, take_travel_from, take_travel_intent, take_applied_from, take_applied_intent,
}
use twow_repo.Pipeline.Travel.{
  note_travel_started, start_travel, stop_travel, end_travel, uncount, forget,
}
use twow_repo.Pipeline.Answer.{Waits, take_answer_from, take_answer}
use twow_repo.Pipeline.State.{BatchExchange, ResolvedPoi}
use twow_repo.Pipeline.Batch.{refuse_locally}
use twow_repo.Pipeline.Counters.Kept.{
  is_active, store_outcome-conditions, take_travel_from-conditions, take_answer_from-active,
  take_applied_from-conditions, count_states-same, count_states-same_at,
}

-- The number of bots on an errand.
abbrev pub active_bots : World → ℕ
active_bots w = count_states is_active w.states

abbrev pub IsActiveCounted : World → Type 0
IsActiveCounted w = w.active_travels ≡ active_bots w % 2 ^ 32

-- A write that keeps whether the bot is on an errand.
pub kept :
    (w : World) (raw : ℕ) (new s : BotPlanState)
    → IsActiveCounted w
    → find_state raw w.states ≡ some s
    → is_active new ≡ is_active s
    → w.active_travels ≡ count_states is_active (put_state raw new w.states) % 2 ^ 32
kept w raw new s h e same = rw (count_states-same is_active raw new s w.states e same, h)

pub kept_at :
    (w : World) (raw : ℕ) (new : BotPlanState)
    → IsActiveCounted w
    → is_active new ≡ is_active (state_at raw w.states)
    → w.active_travels ≡ count_states is_active (put_state raw new w.states) % 2 ^ 32
kept_at w raw new h same = rw (count_states-same_at is_active raw new w.states refl same, h)

pub note_travel_started-counted :
    (now : ℕ) (bot : Option ℕ) (intent_id kind poi_id : Bytes) (destination : ℕ) (w : World)
    → IsActiveCounted w
    → IsActiveCounted (note_travel_started now bot intent_id kind poi_id destination w)
unfolding note_travel_started counter_up
note_travel_started-counted now none intent_id kind poi_id destination w h = h
note_travel_started-counted now (some raw) [] kind poi_id destination w h = h
note_travel_started-counted now (some raw) (c ∷ cs) kind poi_id destination w h =
    if_found-keeps IsActiveCounted (find_state raw w.states) w _ h (λ s e. started s e (
      count_states-put_state is_active raw (start_travel now (c ∷ cs) kind poi_id destination s)
        w.states))
  where
    started :
        (s : BotPlanState)
        → find_state raw w.states ≡ some s
        → count_states is_active
              (put_state raw (start_travel now (c ∷ cs) kind poi_id destination s) w.states)
            + bit_at is_active (find_state raw w.states)
          ≡ count_states is_active w.states + 1
        → (if s.has_active_travel then w.active_travels else counter_up w.active_travels)
          ≡ count_states is_active
              (put_state raw (start_travel now (c ∷ cs) kind poi_id destination s) w.states)
            % 2 ^ 32
    started s e count = ground (arith, ap (bit_at is_active) e)

pub end_travel-counted :
    (now : ℤ) (raw : ℕ) (result reason : Bytes) (w : World)
    → IsActiveCounted w
    → IsActiveCounted (end_travel now raw result reason w)
unfolding end_travel stop_travel counter_down
end_travel-counted now raw result reason w h =
    if_found-keeps IsActiveCounted (find_state raw w.states) w _ h (λ s e.
      if-keeps IsActiveCounted (not s.has_active_travel) w _ (λ q. h)
        (λ q.
          ended s e q
            (count_states-put_state is_active raw (stop_travel now result reason s) w.states)))
  where
    ended :
        (s : BotPlanState)
        → find_state raw w.states ≡ some s
        → not s.has_active_travel ≡ false
        → count_states is_active (put_state raw (stop_travel now result reason s) w.states)
            + bit_at is_active (find_state raw w.states)
          ≡ count_states is_active w.states + 0
        → (w.active_travels + (2 ^ 32 - 1)) % 2 ^ 32
          ≡ count_states is_active (put_state raw (stop_travel now result reason s) w.states)
            % 2 ^ 32
    ended s e q count = ground (arith, ap (bit_at is_active) e)

pub forget-counted : (raw : ℕ) (w : World) → IsActiveCounted w → IsActiveCounted (forget raw w)
unfolding forget uncount counter_down
forget-counted raw w h = go (find_state raw w.states) refl
  where
    go :
        (o : Option BotPlanState)
        → find_state raw w.states ≡ o
        → (uncount o w).active_travels ≡ count_states is_active (erase_state raw w.states) % 2 ^ 32
    go none e =
        ground (arith, ap (bit_at is_active) e, count_states-erase_state is_active raw w.states)
    go (some s) e =
        ground (arith, ap (bit_at is_active) e, count_states-erase_state is_active raw w.states)

pub record_outcome-counted :
    (now : ℤ) (bot : Option ℕ) (intent_id kind result reason poi_id : Bytes) (w : World)
    → IsActiveCounted w
    → IsActiveCounted (record_outcome now bot intent_id kind result reason poi_id w)
unfolding record_outcome
record_outcome-counted now none intent_id kind result reason poi_id w h = h
record_outcome-counted now (some raw) [] kind result reason poi_id w h = h
record_outcome-counted now (some raw) (c ∷ cs) kind result reason poi_id w h =
    if_found-keeps IsActiveCounted (find_state raw w.states) w _ h (λ s e.
      kept w raw (store_outcome now s (c ∷ cs) kind result reason poi_id) s h e
        (ap (λ b. b.0) (store_outcome-conditions now s (c ∷ cs) kind result reason poi_id)))

pub take_travel_intent-counted :
    (ttl : ℕ) (c : Clocks) (bot : Option ℕ) (w : World)
    → IsActiveCounted w
    → IsActiveCounted (take_travel_intent ttl c bot w).0
unfolding take_travel_intent
take_travel_intent-counted ttl c none w h = h
take_travel_intent-counted ttl c (some raw) w h =
    if_found-keeps (λ (r : World × Option (Intent × ResolvedPoi)). IsActiveCounted r.0)
      (find_state raw w.states) (w, none) _ h
      (λ s e.
        kept w raw (take_travel_from ttl c s).0 s h e
          (ap (λ b. b.0) (take_travel_from-conditions ttl c s)))

pub take_applied_intent-counted :
    (c : Clocks) (bot : Option ℕ) (w : World)
    → IsActiveCounted w
    → IsActiveCounted (take_applied_intent c bot w).0
unfolding take_applied_intent
take_applied_intent-counted c none w h = h
take_applied_intent-counted c (some raw) w h =
    if_found-keeps (λ (r : World × Option Intent). IsActiveCounted r.0) (find_state raw w.states)
      (w, none) _ h
      (λ s e.
        kept w raw (take_applied_from c s).0 s h e
          (ap (λ b. b.0) (take_applied_from-conditions c s)))

pub take_answer-counted :
    (cfg : Waits) (now realm guid raw : ℕ) (e : BatchExchange) (w : World)
    → IsActiveCounted w
    → IsActiveCounted (take_answer cfg now realm guid raw e w)
unfolding take_answer
take_answer-counted cfg now realm guid raw e w h =
    kept_at w raw (take_answer_from cfg now realm guid e (state_at raw w.states)) h
      (take_answer_from-active cfg now realm guid e (state_at raw w.states))

pub refuse_locally-counted :
    (now backoff_ms raw : ℕ) (w : World)
    → IsActiveCounted w
    → IsActiveCounted (refuse_locally now backoff_ms raw w)
unfolding refuse_locally
refuse_locally-counted now backoff_ms raw w h = kept_at w raw _ h refl
