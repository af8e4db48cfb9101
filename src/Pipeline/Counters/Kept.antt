-- ===== src/Pipeline/Counters/Kept.antt =====
-- What each call leaves of a bot's two counted conditions.
use twow_repo.Base.{◌+◌}
use twow_repo.Base.{
  ℕ, Bool, false, List, [], ◌∷◌, Option, none, some, Bytes, ◌≡◌, refl, ap, ◌∙◌, arith,
}
use twow_repo.Base.Int.{ℤ}
use twow_repo.Wire.Types.{Intent}
use twow_repo.Pipeline.State.{
  BotPlanState, States, OwnedStrategy, find_state, put_state, state_at, state_or_new, is_standing,
  new_state,
}
use twow_repo.Pipeline.State.Store.{bit, bit_at, count_states, count_states-put_state}
use twow_repo.Pipeline.Clock.{add32}
use twow_repo.Pipeline.State.{idle}
use twow_repo.Base.{find}
use twow_repo.Pipeline.State.Store.{if-keeps}
use twow_repo.Pipeline.Batch.{is_awaiting_plan, hand_to, hand_over, hand_over_all}
use twow_repo.Pipeline.Outcomes.{store_outcome}
use twow_repo.Pipeline.Intents.{Clocks, names_poi, take_row, take_travel_from, take_applied_from}
use twow_repo.Pipeline.Directives.{Diff}
use twow_repo.Pipeline.Strategies.{end_reconcile}
use twow_repo.Pipeline.Answer.{Waits, place, take_intents, take_answer_from}
use twow_repo.Pipeline.State.{ResolvedPoi, BatchExchange}

abbrev pub is_active : BotPlanState → Bool
is_active s = s.has_active_travel

-- Both conditions at once.
abbrev pub conditions : BotPlanState → Bool × Bool
conditions s = (s.has_active_travel, is_standing s)

pub store_outcome-conditions :
    (now : ℤ) (s : BotPlanState) (intent_id kind result reason poi_id : Bytes)
    → conditions (store_outcome now s intent_id kind result reason poi_id) ≡ conditions s
unfolding store_outcome
store_outcome-conditions now s intent_id kind result reason poi_id = ground arith

pub take_row-conditions :
    (c : Clocks) (s : BotPlanState) (found : Option ResolvedPoi)
    → conditions (take_row c s found).0 ≡ conditions s
unfolding take_row store_outcome
take_row-conditions c s none = ground arith
take_row-conditions c s (some row) = ground arith

pub take_travel_from-conditions :
    (ttl : ℕ) (c : Clocks) (s : BotPlanState)
    → conditions (take_travel_from ttl c s).0 ≡ conditions s
unfolding take_travel_from store_outcome
take_travel_from-conditions ttl c s =
    ground (arith, take_row-conditions c s (find (names_poi s.intent.travel_poi_id) s.poi_table))

pub take_applied_from-conditions :
    (c : Clocks) (s : BotPlanState) → conditions (take_applied_from c s).0 ≡ conditions s
unfolding take_applied_from store_outcome
take_applied_from-conditions c s = ground arith

pub place-active :
    (realm guid : ℕ) (i : Intent) (s : BotPlanState)
    → is_active (place realm guid i s) ≡ is_active s
unfolding place
place-active realm guid i s = ground arith

pub take_intents-active :
    (realm guid : ℕ) (is : List Intent) (s : BotPlanState)
    → is_active (take_intents realm guid is s) ≡ is_active s
unfolding take_intents
take_intents-active realm guid [] s = refl
take_intents-active realm guid (i ∷ is) s =
    ground
      (arith, place-active realm guid i s, take_intents-active realm guid is (place realm guid i s))

pub take_answer_from-active :
    (cfg : Waits) (now realm guid : ℕ) (e : BatchExchange) (s : BotPlanState)
    → is_active (take_answer_from cfg now realm guid e s) ≡ is_active s
unfolding take_answer_from
take_answer_from-active cfg now realm guid e s = ground (
  arith,
  take_intents-active realm guid e.response.intents
      (record s { phase = idle; next_request_ms = add32 now cfg.interval_ms }),
)

pub end_reconcile-active :
    (now : ℤ) (pending : Option Intent) (d : Diff) (next : List OwnedStrategy) (s : BotPlanState)
    → is_active (end_reconcile now pending d next s) ≡ is_active s
unfolding end_reconcile store_outcome
end_reconcile-active now none d next s = refl
end_reconcile-active now (some i) d next s = ground arith

module _ (p : BotPlanState → Bool) where
  -- A write that keeps the condition keeps the number of bots that meet it.
  pub count_states-same :
      (raw : ℕ) (new s : BotPlanState) (states : States)
      → find_state raw states ≡ some s
      → p new ≡ p s
      → count_states p (put_state raw new states) ≡ count_states p states
  count_states-same raw new s states e h =
      let step = count_states-put_state p raw new states in
      let found = ap (bit_at p) e in let bits = ap bit h in omega (arith, step, found, bits)

  pub count_states-same_at :
      (raw : ℕ) (new : BotPlanState) (states : States)
      → p new_state ≡ false
      → p new ≡ p (state_at raw states)
      → count_states p (put_state raw new states) ≡ count_states p states
  unfolding state_at
  count_states-same_at raw new states h k = go (find_state raw states) refl
    where
      go :
          (o : Option BotPlanState)
          → find_state raw states ≡ o
          → count_states p (put_state raw new states) ≡ count_states p states
      go none e =
          let step = count_states-put_state p raw new states in
          let found = ap (bit_at p) e in
          let bits = ap bit (k ∙ (ap (λ o. p (state_or_new o)) e ∙ h)) in
          omega (arith, step, found, bits)
      go (some s) e = count_states-same raw new s states e (k ∙ ap (λ o. p (state_or_new o)) e)

  -- The same for any write, by what it does to the bot's own part.
  pub count_states-put_at :
      (raw : ℕ) (new : BotPlanState) (states : States)
      → p new_state ≡ false
      → count_states p (put_state raw new states) + bit (p (state_at raw states))
        ≡ count_states p states + bit (p new)
  unfolding state_at
  count_states-put_at raw new states h = go (find_state raw states) refl
    where
      go :
          (o : Option BotPlanState)
          → find_state raw states ≡ o
          → count_states p (put_state raw new states)
              + bit (p (state_or_new (find_state raw states)))
            ≡ count_states p states + bit (p new)
      go none e =
          let step = count_states-put_state p raw new states in
          let found = ap (bit_at p) e in
          let fresh = ap bit (ap (λ o. p (state_or_new o)) e ∙ h) in
          omega (arith, step, found, fresh)
      go (some s) e =
          let step = count_states-put_state p raw new states in
          let found = ap (bit_at p) e in
          let there = ap bit (ap (λ o. p (state_or_new o)) e) in omega (arith, step, found, there)

  -- Sending a batch changes no condition that does not look at the exchange.
  pub hand_over_all-count :
      ((s : BotPlanState) (x : Option ℕ) → p (record s { batch = x }) ≡ p s)
      → (exchange : ℕ) (guids : List ℕ) (states : States)
      → count_states p (hand_over_all exchange guids states) ≡ count_states p states
  unfolding hand_over_all
  hand_over_all-count same exchange [] states = refl
  hand_over_all-count same exchange (g ∷ gs) states =
      hand_over_all-count same exchange gs (hand_over exchange states g)
      ∙ one (find_state g states) refl
    where
      one :
          (o : Option BotPlanState)
          → find_state g states ≡ o
          → count_states p (hand_to exchange g o states) ≡ count_states p states
      one none e = refl
      one (some s) e =
          if-keeps (λ t. count_states p t ≡ count_states p states) (is_awaiting_plan s.phase)
            (put_state g (record s { batch = some exchange }) states) states
            (λ q.
              count_states-same g (record s { batch = some exchange }) s states e
                (same s (some exchange)))
            (λ q. refl)
