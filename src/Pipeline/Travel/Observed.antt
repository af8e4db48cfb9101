-- ===== src/Pipeline/Travel/Observed.antt =====
-- What the observer may report: success and unreachability are never made up.
use twow_repo.Base.{ℕ, Bool, true, false, not, ◌&&◌, ◌||◌, none, some, ◌==◌, codes, ◌≡◌, arith}
use twow_repo.Wire.Vocabulary.{has_arrival_action}
use twow_repo.Pipeline.State.{BotPlanState}
use twow_repo.Pipeline.Travel.{
  TravelStatus, work, cooldown, expired, TravelTarget, DoAction, perform_arrival_action,
  seen_status, seen_target, timed_out, after_action, observe,
}

abbrev pub is_arrival : TravelStatus → Bool
is_arrival work = true
is_arrival cooldown = true
is_arrival _ = false

-- The destination that was asked for, and a status of it.
abbrev pub reached : (TravelStatus → Bool) → BotPlanState → TravelTarget → Bool
reached p s none = false
reached p s (some (destination, status)) = destination == s.active_destination && p status

abbrev pub is_gone : TravelStatus → Bool
is_gone expired = true
is_gone _ = false

-- A travel is reported as completed only when the bot's target is still the destination that was
-- asked for, the travel system says it is there, and the action of a kind that has one was done.
pub observe-completed :
    (act : DoAction) (now : ℕ) (target : TravelTarget) (s : BotPlanState)
    → (observe act now target s).result ≡ some (codes "completed")
    → (reached is_arrival s target ≡ true)
      × ((not (has_arrival_action s.active_kind) || (perform_arrival_action act s.active_kind).0)
          ≡ true)
unfolding observe seen_target seen_status timed_out after_action
observe-completed act now none s h = ground arith
observe-completed act now (some (destination, status)) s h = ground arith

-- A travel is reported as unreachable only when the travel system itself gave it up: no timeout
-- and no change of target is blamed on the place.
pub observe-unreachable :
    (act : DoAction) (now : ℕ) (target : TravelTarget) (s : BotPlanState)
    → (observe act now target s).reason ≡ codes "unreachable"
    → reached is_gone s target ≡ true
unfolding observe seen_target seen_status timed_out after_action perform_arrival_action
observe-unreachable act now none s h = ground arith
observe-unreachable act now (some (destination, status)) s h = ground arith
