-- ===== src/Pipeline/Counters/Runs.antt =====
-- The calls that go through a batch or the reconciler, and runs of all the calls.
use twow_repo.Base.{
  ℕ, ◌==◌, Bool, true, not, ◌||◌, List, [], ◌∷◌, Option, none, some, is_empty, ◌≡◌, refl, ap,
}
use twow_repo.Base.Int.{ℤ}
use twow_repo.Wire.Types.{Intent, Snapshot}
use twow_repo.Pipeline.State.{BotPlanState, PendingBatch, World, find_state, put_state}
use twow_repo.Pipeline.State.Store.{if_found-keeps, if-keeps}
use twow_repo.Pipeline.State.Store.{find_state-put_state}
use twow_repo.Pipeline.State.{is_standing}
use twow_repo.Pipeline.Clock.{is_expired}
use twow_repo.Base.{codes}
use twow_repo.Pipeline.Outcomes.{store_outcome}
use twow_repo.Pipeline.Directives.{Engine}
use twow_repo.Pipeline.Strategies.{
  reconcile_strategies, reconcile_held, settle_strategies, begin_reconcile,
}
use twow_repo.Pipeline.State.{ResolvedPoi}
use twow_repo.Pipeline.Batch.{is_due, dispatch, await_plan, join, maybe_flush}
use twow_repo.Pipeline.Counters.{
  Event, step, run, travel_started, travel_ended, outcome_recorded, travel_intent_taken,
  applied_intent_taken, reconciled, answered, joined, refused, flushed, forgotten,
}
use twow_repo.Pipeline.Counters.Kept.{is_active, store_outcome-conditions, end_reconcile-active}
use twow_repo.Pipeline.Counters.Kept.{hand_over_all-count}
use twow_repo.Pipeline.Counters.Active.{
  IsActiveCounted, kept, kept_at, note_travel_started-counted, end_travel-counted, forget-counted,
  record_outcome-counted, take_travel_intent-counted, take_applied_intent-counted,
  take_answer-counted, refuse_locally-counted,
}

dispatch-counted :
    (exchange : ℕ) (b : Option PendingBatch) (w : World)
    → IsActiveCounted w
    → IsActiveCounted (dispatch exchange b w)
unfolding dispatch
dispatch-counted exchange none w h = h
dispatch-counted exchange (some b) w h =
    rw (hand_over_all-count is_active (λ t x. refl) exchange b.guids w.states, h)

join-counted :
    (exchange now flush_ms raw : ℕ) (table : List ResolvedPoi) (snapshot : Snapshot) (w : World)
    → IsActiveCounted w
    → IsActiveCounted (join exchange now flush_ms raw table snapshot w)
unfolding join await_plan
join-counted exchange now flush_ms raw table snapshot w h =
    dispatch-counted exchange _ _ (kept_at w raw _ h refl)

maybe_flush-counted :
    (exchange now : ℕ) (enabled : Bool) (w : World)
    → IsActiveCounted w
    → IsActiveCounted (maybe_flush exchange now enabled w)
unfolding maybe_flush
maybe_flush-counted exchange now enabled w h =
    if-keeps IsActiveCounted (w.shutting_down || not enabled) w _ (λ q. h)
      (λ q.
        if-keeps IsActiveCounted (not (is_due now w.pending_batch)) w _ (λ r. h)
          (λ r. dispatch-counted exchange w.pending_batch (record w { pending_batch = none }) h))

settle_strategies-counted :
    (engine : Engine) (now : ℤ) (raw : ℕ) (release : Bool) (pending : Option Intent)
    (s : BotPlanState) (w : World)
    → find_state raw w.states ≡ some s
    → IsActiveCounted w
    → IsActiveCounted (settle_strategies engine now raw release pending s w)
unfolding settle_strategies
settle_strategies-counted engine now raw release pending s w e h =
    kept w raw _ s h e (end_reconcile-active now pending _ _ s)

reconcile_held-counted :
    (engine : Engine) (unix now : ℤ) (raw : ℕ) (closed : Bool) (s : BotPlanState) (w : World)
    → find_state raw w.states ≡ some s
    → IsActiveCounted w
    → IsActiveCounted (reconcile_held engine unix now raw closed s w)
unfolding reconcile_held begin_reconcile
reconcile_held-counted engine unix now raw closed s w e h =
    if-keeps IsActiveCounted (not s.has_standing_intent) _ _
      (λ q.
        if-keeps IsActiveCounted closed _ _ (λ r. settled true none)
          (λ r.
            if-keeps IsActiveCounted (not s.standing_answered || is_empty s.owned_strategies) _ _
              (λ t. begun) (λ t. settled true none)))
      (λ q.
        if-keeps IsActiveCounted (is_expired s.standing_intent.expires_at_ms unix) _ _
          (λ r.
            kept w1 raw
              (store_outcome now left s.standing_intent.intent_id s.standing_intent.kind
                (codes "expired") [] [])
              left begun there
              (ap (λ b. b.0)
                (store_outcome-conditions now left s.standing_intent.intent_id
                  s.standing_intent.kind (codes "expired") [] [])))
          (λ r. settled closed (some s.standing_intent)))
  where
    left : BotPlanState
    left = begin_reconcile s

    w1 : World
    w1 = record w { states = put_state raw left w.states }

    begun : IsActiveCounted w1
    begun = kept w raw left s h e refl

    there : find_state raw w1.states ≡ some left
    there = find_state-put_state raw left w.states

    settled :
        (release : Bool) (pending : Option Intent)
        → IsActiveCounted (settle_strategies engine now raw release pending left w1)
    settled release pending =
        settle_strategies-counted engine now raw release pending left w1 there begun

reconcile_strategies-counted :
    (engine : Engine) (unix now : ℤ) (raw : ℕ) (closed : Bool) (w : World)
    → IsActiveCounted w
    → IsActiveCounted (reconcile_strategies engine unix now raw closed w)
unfolding reconcile_strategies
reconcile_strategies-counted engine unix now raw closed w h =
    if-keeps IsActiveCounted (w.standing_bots == 0) w _ (λ q. h)
      (λ q. if_found-keeps IsActiveCounted (find_state raw w.states) w _ h (λ s e.
        if-keeps IsActiveCounted (not (is_standing s)) w _ (λ r. h)
          (λ r. reconcile_held-counted engine unix now raw closed s w e h)))

-- Every call keeps the count.
pub step-IsActiveCounted : (e : Event) (w : World) → IsActiveCounted w → IsActiveCounted (step e w)
unfolding step
step-IsActiveCounted (travel_started now bot intent_id kind poi_id destination) w h =
    note_travel_started-counted now bot intent_id kind poi_id destination w h
step-IsActiveCounted (travel_ended now raw result reason) w h =
    end_travel-counted now raw result reason w h
step-IsActiveCounted (outcome_recorded now bot intent_id kind result reason poi_id) w h =
    record_outcome-counted now bot intent_id kind result reason poi_id w h
step-IsActiveCounted (travel_intent_taken ttl c bot) w h = take_travel_intent-counted ttl c bot w h
step-IsActiveCounted (applied_intent_taken c bot) w h = take_applied_intent-counted c bot w h
step-IsActiveCounted (reconciled engine unix now raw closed) w h =
    reconcile_strategies-counted engine unix now raw closed w h
step-IsActiveCounted (answered cfg now realm guid raw e) w h =
    take_answer-counted cfg now realm guid raw e w h
step-IsActiveCounted (joined exchange now flush_ms raw table snapshot) w h =
    join-counted exchange now flush_ms raw table snapshot w h
step-IsActiveCounted (refused now backoff_ms raw) w h =
    refuse_locally-counted now backoff_ms raw w h
step-IsActiveCounted (flushed exchange now enabled) w h =
    maybe_flush-counted exchange now enabled w h
step-IsActiveCounted (forgotten raw) w h = forget-counted raw w h

-- In a world where the 32-bit count of errands is the number of bots that are on one, it still is
-- after any run of calls in any order, bots that log out on the way included.
pub run-IsActiveCounted :
    (es : List Event) (w : World) → IsActiveCounted w → IsActiveCounted (run es w)
unfolding run
run-IsActiveCounted [] w h = h
run-IsActiveCounted (e ∷ es) w h = run-IsActiveCounted es (step e w) (step-IsActiveCounted e w h)
