-- ===== src/Pipeline/Answer.antt =====
-- Phase D of `Tick`: what a bot takes from the reply that its batch got.
pub mod Slots
use twow_repo.Base.{
  ℕ, Bool, true, false, not, ◌&&◌, ◌||◌, List, [], ◌∷◌, Option, none, some, ◌==◌, if◌then◌else◌,
}
use twow_repo.Wire.Vocabulary.{is_standing_kind}
use twow_repo.Wire.Types.{Intent}
use twow_repo.Pipeline.Clock.{add32}
use twow_repo.Pipeline.State.{
  idle, BotPlanState, BatchExchange, World, is_standing, state_at, put_state, counter_up,
}

-- Whether an intent is addressed to the bot: a realm's number and a low guid.
abbrev pub is_addressed : ℕ → ℕ → Intent → Bool
is_addressed realm guid i = i.bot.guid == guid && i.bot.realm == realm

-- The slot that an intent goes to, unless it is full.
unfoldable pub place : ℕ → ℕ → Intent → BotPlanState → BotPlanState
place realm guid i s =
    if not (is_addressed realm guid i)
    then s
    else if is_standing_kind i.kind
    then (if s.has_standing_intent
        then s
        else record s { has_standing_intent = true; standing_intent = i })
    else (if s.has_intent then s else record s { has_intent = true; intent = i })

-- The loop: it stops after an errand once both slots are full.
unfoldable pub take_intents : ℕ → ℕ → List Intent → BotPlanState → BotPlanState
unfolding place
take_intents realm guid [] s = s
take_intents realm guid (i ∷ is) s =
    let placed = place realm guid i s in
    let rest = take_intents realm guid is placed in
    if is_addressed realm guid i
      && not (is_standing_kind i.kind)
      && placed.has_intent
      && placed.has_standing_intent
    then placed
    else rest

-- `cfg.backoffMs` and `cfg.intervalMs`.
pub record Waits : Type 0 where
  pub backoff_ms : ℕ
  pub interval_ms : ℕ

-- Phase D on the bot's state, once `batch` is done and has been let go of.
unfoldable pub take_answer_from : Waits → ℕ → ℕ → ℕ → BatchExchange → BotPlanState → BotPlanState
take_answer_from cfg now realm guid e s =
    if not e.result_ok || not e.decoded
    then record s { phase = idle; next_request_ms = add32 now cfg.backoff_ms }
    else record (take_intents realm guid e.response.intents
        (record s { phase = idle; next_request_ms = add32 now cfg.interval_ms })) {
          standing_answered = true;
        }

-- Whether `g_standingBots` goes up.
unfoldable pub becomes_standing : BotPlanState → BotPlanState → Bool
becomes_standing before after = not (is_standing before) && is_standing after

unfoldable pub take_answer : Waits → ℕ → ℕ → ℕ → ℕ → BatchExchange → World → World
take_answer cfg now realm guid raw e w =
    let before = state_at raw w.states in
    let after = take_answer_from cfg now realm guid e before in
    record w {
      states = put_state raw after w.states;
      standing_bots =
          if becomes_standing before after then counter_up w.standing_bots else w.standing_bots;
    }
