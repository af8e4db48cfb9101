-- ===== src/Pipeline/Counters.antt =====
-- The calls of `BotBrainPipeline.cpp` that change what it keeps, as steps in any order, and the
-- counters `g_activeTravels` and `g_standingBots` along them.
pub mod Kept
pub mod Active
pub mod Runs
pub mod Standing
pub mod Covered
use twow_repo.Base.{ℕ, Bool, List, [], ◌∷◌, Option, Bytes}
use twow_repo.Base.Int.{ℤ}
use twow_repo.Wire.Types.{Snapshot}
use twow_repo.Pipeline.State.{ResolvedPoi, BatchExchange, World}
use twow_repo.Pipeline.Outcomes.{record_outcome}
use twow_repo.Pipeline.Intents.{Clocks, take_travel_intent, take_applied_intent}
use twow_repo.Pipeline.Travel.{note_travel_started, end_travel, forget}
use twow_repo.Pipeline.Directives.{Engine}
use twow_repo.Pipeline.Strategies.{reconcile_strategies}
use twow_repo.Pipeline.Answer.{Waits, take_answer}
use twow_repo.Pipeline.Batch.{join, refuse_locally, maybe_flush}

-- A call, or the critical section of one, with what it reads from outside.
pub data Event : Type 1 where
  travel_started : ℕ → Option ℕ → Bytes → Bytes → Bytes → ℕ → Event
  travel_ended : ℤ → ℕ → Bytes → Bytes → Event
  outcome_recorded : ℤ → Option ℕ → Bytes → Bytes → Bytes → Bytes → Bytes → Event
  travel_intent_taken : ℕ → Clocks → Option ℕ → Event
  applied_intent_taken : Clocks → Option ℕ → Event
  reconciled : Engine → ℤ → ℤ → ℕ → Bool → Event
  answered : Waits → ℕ → ℕ → ℕ → ℕ → BatchExchange → Event
  joined : ℕ → ℕ → ℕ → ℕ → List ResolvedPoi → Snapshot → Event
  refused : ℕ → ℕ → ℕ → Event
  flushed : ℕ → ℕ → Bool → Event
  forgotten : ℕ → Event

unfoldable pub step : Event → World → World
step (travel_started now bot intent_id kind poi_id destination) w =
    note_travel_started now bot intent_id kind poi_id destination w
step (travel_ended now raw result reason) w = end_travel now raw result reason w
step (outcome_recorded now bot intent_id kind result reason poi_id) w =
    record_outcome now bot intent_id kind result reason poi_id w
step (travel_intent_taken ttl c bot) w = (take_travel_intent ttl c bot w).0
step (applied_intent_taken c bot) w = (take_applied_intent c bot w).0
step (reconciled engine unix now raw closed) w = reconcile_strategies engine unix now raw closed w
step (answered cfg now realm guid raw e) w = take_answer cfg now realm guid raw e w
step (joined exchange now flush_ms raw table snapshot) w =
    join exchange now flush_ms raw table snapshot w
step (refused now backoff_ms raw) w = refuse_locally now backoff_ms raw w
step (flushed exchange now enabled) w = maybe_flush exchange now enabled w
step (forgotten raw) w = forget raw w

-- One after another.
unfoldable pub run : List Event → World → World
unfolding step
run [] w = w
run (e ∷ es) w = run es (step e w)
