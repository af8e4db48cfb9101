-- ===== src/Pipeline/Strategies.antt =====
-- `ReconcileStrategies`: taking strategies over on a bot, and giving them back.
pub mod Priors
use twow_repo.Base.{
  ℕ, ◌+◌, Bool, true, false, not, ◌&&◌, ◌||◌, List, [], ◌∷◌, ◌++◌, map, Option, none, some, ◌==◌,
  any, find, filter, is_empty, if◌then◌else◌, Bytes, codes, bytes_eq,
}
use twow_repo.Base.Int.{ℤ}
use twow_repo.Wire.Types.{StrategyChange, Intent}
use twow_repo.Pipeline.Clock.{is_expired}
use twow_repo.Pipeline.State.{
  OwnedStrategy, BotPlanState, World, is_standing, if_found, find_state, put_state, counter_up,
  counter_down,
}
use twow_repo.Pipeline.Outcomes.{store_outcome}
use twow_repo.Pipeline.Directives.{Engine, StrategyTarget, Diff, diff_all, bot_state_from_wire_name}

-- Whether two strategies have the same name and state.
abbrev pub is_same : Bytes → Bytes → OwnedStrategy → Bool
is_same name state o = bytes_eq o.name name && bytes_eq o.state state

-- The `prior` of an ownership that goes on, and what the engine says now otherwise.
unfoldable pub first_prior : Option OwnedStrategy → Bool → Bool
first_prior (some previous) observed = previous.prior
first_prior none observed = observed

unfoldable pub prior_of : Engine → List OwnedStrategy → StrategyChange → Bool
unfolding first_prior
prior_of engine owned change =
    first_prior (find (is_same change.name change.state) owned)
      (engine.has_strategy change.name (bot_state_from_wire_name change.state))

unfoldable pub take_over : Engine → List OwnedStrategy → StrategyChange → OwnedStrategy
take_over engine owned change = record {
  name = change.name;
  state = change.state;
  desired = change.enable;
  prior = prior_of engine owned change;
}

-- `next`, before the names that are not registered go.
unfoldable pub next_owned : Engine → List OwnedStrategy → List StrategyChange → List OwnedStrategy
unfolding take_over
next_owned engine owned changes = map (take_over engine owned) changes

-- The targets of what is not owned any more, with the value it is handed back to.
unfoldable pub handed_back : List OwnedStrategy → List OwnedStrategy → List StrategyTarget
handed_back next [] = []
handed_back next (o ∷ os) =
    let rest = handed_back next os in
    if any (is_same o.name o.state) next
    then rest
    else record { name = o.name; state = o.state; want = o.prior } ∷ rest

asked_for : OwnedStrategy → StrategyTarget
asked_for o = record { name = o.name; state = o.state; want = o.desired }

unfoldable pub targets_of : List OwnedStrategy → List OwnedStrategy → List StrategyTarget
unfolding asked_for
targets_of owned next = handed_back next owned ++ map asked_for next

abbrev pub can_be_owned : Engine → OwnedStrategy → Bool
can_be_owned engine o = not (o.desired && not (engine.is_registered o.name))

-- `if (unknown)`: a name that could not be enabled is not owned.
unfoldable pub keep_known : Engine → ℕ → List OwnedStrategy → List OwnedStrategy
keep_known engine unknown next = if unknown == 0 then next else filter (can_be_owned engine) next

-- The first critical section: the standing intent is taken out, and what is held is copied.
unfoldable pub begin_reconcile : BotPlanState → BotPlanState
begin_reconcile s = record s { has_standing_intent = false; standing_answered = false }

-- The last critical section; `intent` is the pending intent, if there is one.
unfoldable pub end_reconcile :
    ℤ → Option Intent → Diff → List OwnedStrategy → BotPlanState → BotPlanState
end_reconcile now none d next s = record s { owned_strategies = next }
end_reconcile now (some i) d next s =
    if not (is_empty d.applied) || not (d.unknown == 0)
    then store_outcome now (record s { owned_strategies = next }) i.intent_id i.kind
        (if not (d.unknown == 0) && is_empty d.applied then codes "rejected" else codes "completed")
        (if d.unknown == 0 then [] else codes "unknown_strategy") []
    else record s { owned_strategies = next }

-- The counter after the last critical section.
unfoldable pub recount : BotPlanState → BotPlanState → ℕ → ℕ
recount before after n =
    if is_standing before && not (is_standing after)
    then counter_down n
    else if not (is_standing before) && is_standing after
    then counter_up n
    else n

-- The strategies that are taken over: those of a pending intent, unless everything goes back.
unfoldable pub changes_of : Bool → Option Intent → List StrategyChange
changes_of true i = []
changes_of false none = []
changes_of false (some i) = i.strategies

-- From the diff to the end, with the state that the first critical section left.
unfoldable pub settle_strategies :
    Engine → ℤ → ℕ → Bool → Option Intent → BotPlanState → World → World
unfolding next_owned targets_of keep_known end_reconcile recount changes_of
settle_strategies engine now raw release pending s w =
    let next = next_owned engine s.owned_strategies (changes_of release pending) in
    let d = diff_all engine (targets_of s.owned_strategies next) in
    let after = end_reconcile now pending d (keep_known engine d.unknown next) s in
    record w {
      states = put_state raw after w.states;
      standing_bots = recount s after w.standing_bots;
    }

-- Between the critical sections. `closed` is a module that is off or not admitted.
unfoldable pub reconcile_held : Engine → ℤ → ℤ → ℕ → Bool → BotPlanState → World → World
unfolding begin_reconcile settle_strategies
reconcile_held engine unix now raw closed s w =
    let left = begin_reconcile s in
    let w1 = record w { states = put_state raw left w.states } in
    if not s.has_standing_intent
    then (if closed
        then settle_strategies engine now raw true none left w1
        else if not s.standing_answered || is_empty s.owned_strategies
        then w1
        else settle_strategies engine now raw true none left w1)
    else if is_expired s.standing_intent.expires_at_ms unix
    then record w1 {
      states =
          put_state raw
            (store_outcome now left s.standing_intent.intent_id s.standing_intent.kind
              (codes "expired") [] [])
            w1.states;
    }
    else settle_strategies engine now raw closed (some s.standing_intent) left w1

-- `ReconcileStrategies` for a bot in the world, no other call coming in between.
unfoldable pub reconcile_strategies : Engine → ℤ → ℤ → ℕ → Bool → World → World
unfolding reconcile_held
reconcile_strategies engine unix now raw closed w =
    if w.standing_bots == 0
    then w
    else if_found (find_state raw w.states) w
        (λ s. if not (is_standing s) then w else reconcile_held engine unix now raw closed s w)
