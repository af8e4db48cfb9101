-- ===== src/Pipeline/Counters/Covered.antt =====
-- `g_standingBots` along the reconciler, the batch, and runs of all the calls.
use twow_repo.Base.{
  ℕ, suc, ◌+◌, ◌-◌, ◌%◌, ◌^◌, ◌≤◌, ◌<◌, ◌==◌, Bool, true, false, not, ◌&&◌, ◌||◌, List, [], ◌∷◌,
  Option, none, some, is_empty, length, if◌then◌else◌, codes, ◌≡◌, refl, ap, arith,
}
use twow_repo.Base.Int.{ℤ}
use twow_repo.Wire.Types.{Intent, Snapshot}
use twow_repo.Pipeline.State.{
  BotPlanState, World, find_state, put_state, counter_up, counter_down, ResolvedPoi, PendingBatch,
  is_standing,
}
use twow_repo.Pipeline.State.Store.{
  bit_at, count_states, count_states-put_state, if_found-keeps, if-keeps, find_state-put_state,
}
use twow_repo.Pipeline.Outcomes.{store_outcome}
use twow_repo.Pipeline.Batch.{is_due, dispatch, await_plan, join, maybe_flush}
use twow_repo.Pipeline.Clock.{is_expired}
use twow_repo.Pipeline.Directives.{Engine}
use twow_repo.Pipeline.Strategies.{
  reconcile_strategies, reconcile_held, settle_strategies, begin_reconcile,
}
use twow_repo.Pipeline.State.Store.{bit}
use twow_repo.Pipeline.Strategies.{recount}
use twow_repo.Pipeline.Counters.Kept.{store_outcome-conditions, hand_over_all-count}
use twow_repo.Pipeline.Counters.Standing.{
  standing_count, IsCoveredBy, Covers, weaken, covers-put, covers-put_at,
  note_travel_started-Covers, end_travel-Covers, forget-Covers, record_outcome-Covers,
  take_travel_intent-Covers, take_applied_intent-Covers, take_answer-Covers, refuse_locally-Covers,
}
use twow_repo.Pipeline.Counters.{
  Event, step, run, travel_started, travel_ended, outcome_recorded, travel_intent_taken,
  applied_intent_taken, reconciled, answered, joined, refused, flushed, forgotten,
}

dispatch-Covers :
    (n exchange : ℕ) (b : Option PendingBatch) (w : World)
    → Covers n w
    → Covers n (dispatch exchange b w)
unfolding dispatch
dispatch-Covers n exchange none w h = h
dispatch-Covers n exchange (some b) w h = (
  omega (arith, h.0, hand_over_all-count is_standing (λ t x. refl) exchange b.guids w.states),
  h.1,
)

join-Covers :
    (n exchange now flush_ms raw : ℕ) (table : List ResolvedPoi) (snapshot : Snapshot) (w : World)
    → IsCoveredBy n w
    → Covers n (join exchange now flush_ms raw table snapshot w)
unfolding join await_plan
join-Covers n exchange now flush_ms raw table snapshot w h =
    dispatch-Covers n exchange _ _ (covers-put_at n w raw _ h refl)

maybe_flush-Covers :
    (n exchange now : ℕ) (enabled : Bool) (w : World)
    → IsCoveredBy n w
    → Covers n (maybe_flush exchange now enabled w)
unfolding maybe_flush
maybe_flush-Covers n exchange now enabled w h =
    if-keeps (Covers n) (w.shutting_down || not enabled) w _ (λ q. weaken n w h)
      (λ q.
        if-keeps (Covers n) (not (is_due now w.pending_batch)) w _ (λ r. weaken n w h)
          (λ r.
            dispatch-Covers n exchange w.pending_batch (record w { pending_batch = none })
              (weaken n w h)))

-- The last critical section of the reconciler, for whatever it leaves.
recount-Covers :
    (n raw : ℕ) (s after : BotPlanState) (w : World)
    → n < 2 ^ 32
    → find_state raw w.states ≡ some s
    → IsCoveredBy n w
    → (count_states is_standing (put_state raw after w.states) ≤ recount s after w.standing_bots)
      × (recount s after w.standing_bots < suc n)
unfolding recount counter_up counter_down
recount-Covers n raw s after w small e h =
    go (is_standing s) (is_standing after) (count_states-put_state is_standing raw after w.states)
      (ap (bit_at is_standing) e)
  where
    go :
        (b a : Bool)
        → count_states is_standing (put_state raw after w.states)
            + bit_at is_standing (find_state raw w.states)
          ≡ standing_count w + bit a
        → bit_at is_standing (find_state raw w.states) ≡ bit b
        → (count_states is_standing (put_state raw after w.states) ≤ (
            if b && not a
            then (w.standing_bots + (2 ^ 32 - 1)) % 2 ^ 32
            else if not b && a
            then (w.standing_bots + 1) % 2 ^ 32
            else w.standing_bots))
          × ((if b && not a
                then (w.standing_bots + (2 ^ 32 - 1)) % 2 ^ 32
                else if not b && a
                then (w.standing_bots + 1) % 2 ^ 32
                else w.standing_bots)
              < suc n)
    go true true c d = (omega (arith, h.0, h.1, c, d), omega (arith, h.1))
    go true false c d = (omega (arith, h.0, h.1, c, d, small), omega (arith, h.0, h.1, c, d, small))
    go false true c d = (omega (arith, h.0, h.1, c, d, small), omega (arith, h.1, small))
    go false false c d = (omega (arith, h.0, h.1, c, d), omega (arith, h.1))

reconcile_held-Covers :
    (n : ℕ) (engine : Engine) (unix now : ℤ) (raw : ℕ) (closed : Bool) (s : BotPlanState)
    (w : World)
    → n < 2 ^ 32
    → find_state raw w.states ≡ some s
    → IsCoveredBy n w
    → Covers n (reconcile_held engine unix now raw closed s w)
unfolding reconcile_held settle_strategies begin_reconcile
reconcile_held-Covers n engine unix now raw closed s w small e h =
    if-keeps (Covers n) (not s.has_standing_intent) _ _
      (λ q.
        if-keeps (Covers n) closed _ _ (λ r. settled true none)
          (λ r.
            if-keeps (Covers n) (not s.standing_answered || is_empty s.owned_strategies) _ _
              (λ t. weaken n w1 begun) (λ t. settled true none)))
      (λ q.
        if-keeps (Covers n) (is_expired s.standing_intent.expires_at_ms unix) _ _
          (λ r.
            covers-put n w1 raw
              (store_outcome now left s.standing_intent.intent_id s.standing_intent.kind
                (codes "expired") [] [])
              left begun there
              (ap (λ b. b.1)
                (store_outcome-conditions now left s.standing_intent.intent_id
                  s.standing_intent.kind (codes "expired") [] [])))
          (λ r. settled closed (some s.standing_intent)))
  where
    left : BotPlanState
    left = begin_reconcile s

    w1 : World
    w1 = record w { states = put_state raw left w.states }

    fewer : bit (is_standing left) ≤ bit (is_standing s)
    fewer = ground arith

    begun : IsCoveredBy n w1
    begun =
        let c = count_states-put_state is_standing raw left w.states in
        let d = ap (bit_at is_standing) e in (omega (arith, h.0, c, d, fewer), h.1)

    there : find_state raw w1.states ≡ some left
    there = find_state-put_state raw left w.states

    settled :
        (release : Bool) (pending : Option Intent)
        → Covers n (settle_strategies engine now raw release pending left w1)
    settled release pending = recount-Covers n raw left _ w1 small there begun

reconcile_strategies-Covers :
    (n : ℕ) (engine : Engine) (unix now : ℤ) (raw : ℕ) (closed : Bool) (w : World)
    → n < 2 ^ 32
    → IsCoveredBy n w
    → Covers n (reconcile_strategies engine unix now raw closed w)
unfolding reconcile_strategies
reconcile_strategies-Covers n engine unix now raw closed w small h =
    if-keeps (Covers n) (w.standing_bots == 0) w _ (λ q. weaken n w h)
      (λ q. if_found-keeps (Covers n) (find_state raw w.states) w _ (weaken n w h) (λ s e.
        if-keeps (Covers n) (not (is_standing s)) w _ (λ r. weaken n w h)
          (λ r. reconcile_held-Covers n engine unix now raw closed s w small e h)))

step-Covers : (n : ℕ) (e : Event) (w : World) → n < 2 ^ 32 → IsCoveredBy n w → Covers n (step e w)
unfolding step
step-Covers n (travel_started now bot intent_id kind poi_id destination) w small h =
    note_travel_started-Covers n now bot intent_id kind poi_id destination w h
step-Covers n (travel_ended now raw result reason) w small h =
    end_travel-Covers n now raw result reason w h
step-Covers n (outcome_recorded now bot intent_id kind result reason poi_id) w small h =
    record_outcome-Covers n now bot intent_id kind result reason poi_id w h
step-Covers n (travel_intent_taken ttl c bot) w small h = take_travel_intent-Covers n ttl c bot w h
step-Covers n (applied_intent_taken c bot) w small h = take_applied_intent-Covers n c bot w h
step-Covers n (reconciled engine unix now raw closed) w small h =
    reconcile_strategies-Covers n engine unix now raw closed w small h
step-Covers n (answered cfg now realm guid raw x) w small h =
    take_answer-Covers n cfg now realm guid raw x w small h
step-Covers n (joined exchange now flush_ms raw table snapshot) w small h =
    join-Covers n exchange now flush_ms raw table snapshot w h
step-Covers n (refused now backoff_ms raw) w small h =
    refuse_locally-Covers n now backoff_ms raw w h
step-Covers n (flushed exchange now enabled) w small h =
    maybe_flush-Covers n exchange now enabled w h
step-Covers n (forgotten raw) w small h = forget-Covers n raw w small h

run-IsCoveredBy :
    (n : ℕ) (es : List Event) (w : World)
    → n + length es ≤ 2 ^ 32
    → IsCoveredBy n w
    → standing_count (run es w) ≤ (run es w).standing_bots
unfolding run
run-IsCoveredBy n [] w small h = h.0
run-IsCoveredBy n (e ∷ es) w small h =
    run-IsCoveredBy (suc n) es (step e w) (omega (arith, small))
      (step-Covers n e w (omega (arith, small)) h)

-- If the count of standing bots is not below the number of bots that have a standing intent or
-- strategies taken over, it is not below it after any run of calls either, in any order, as long
-- as the count and the number of calls together stay below 2^32: the exit that the reconciler
-- takes without a lock when the count is 0 never passes such a bot over.
pub run-covers_standing :
    (es : List Event) (w : World)
    → w.standing_bots + length es < 2 ^ 32
    → standing_count w ≤ w.standing_bots
    → standing_count (run es w) ≤ (run es w).standing_bots
run-covers_standing es w small h =
    run-IsCoveredBy (suc w.standing_bots) es w (omega (arith, small)) (h, omega arith)
