-- ===== src/Examples/Bots.antt =====
-- What one bot's state goes through.
use twow_repo.Base.{
  bytes_eq, ◌-◌, ◌≤◌, ◌≡◌, refl, true, false, not, ◌||◌, ◌==◌, [], ◌∷◌, ◌++◌, some, find, drop,
  length, codes,
}
use twow_repo.Base.Int.{pos, signed32}
use twow_repo.Wire.Vocabulary.{
  one_of, is_applied_kind, is_poi_directed_kind, has_arrival_action, intent_vendor_sell,
}
use twow_repo.Pipeline.Clock.{elapsed, is_expired}
use twow_repo.Pipeline.State.{BotPlanState, new_state}
use twow_repo.Pipeline.Outcomes.{outcome_of, store_outcome, max_queued_outcomes}
use twow_repo.Pipeline.Outcomes.Bounds.{store_outcome-newest}
use twow_repo.Pipeline.Intents.{names_poi, take_travel_from}
use twow_repo.Pipeline.Intents.Offers.{
  is_current, take_travel_from-offers, Accounted, take_travel_from-Accounted,
}
use twow_repo.Pipeline.Travel.{work, expired, DoAction, perform_arrival_action, observe}
use twow_repo.Pipeline.Travel.Observed.{
  is_arrival, is_gone, reached, observe-completed, observe-unreachable,
}
use twow_repo.Pipeline.Answer.{take_intents}
use twow_repo.Pipeline.Answer.Slots.{
  errand_in, standing_in, or_else, is_errand_for, is_standing_for, take_intents-first,
}
use twow_repo.Examples.World.{errand, condition, sent_bot, clocks}

take_intents-first_example :
    (errand_in (take_intents 1 7 (condition ∷ errand ∷ []) new_state)
      ≡ or_else (errand_in new_state) (find (is_errand_for 1 7) (condition ∷ errand ∷ [])))
    × (standing_in (take_intents 1 7 (condition ∷ errand ∷ []) new_state)
        ≡ or_else (standing_in new_state) (find (is_standing_for 1 7) (condition ∷ errand ∷ [])))
take_intents-first_example = take_intents-first 1 7 (condition ∷ errand ∷ []) new_state

taken :
    (take_travel_from 120000 clocks sent_bot).1
    ≡ some (errand, record { id = codes "p0"; destination = 11; position = 12 })
unfolding take_travel_from is_applied_kind one_of bytes_eq is_poi_directed_kind is_expired elapsed
    signed32
taken = refl

take_travel_from-offers_example :
    (is_current 120000 clocks sent_bot ≡ true)
    × (errand ≡ sent_bot.intent)
    × (find (names_poi sent_bot.intent.travel_poi_id) sent_bot.poi_table
        ≡ some (record { id = codes "p0"; destination = 11; position = 12 }))
    × ((11 == 0 || 12 == 0) ≡ false)
    × ((take_travel_from 120000 clocks sent_bot).0 ≡ record sent_bot { has_intent = false })
take_travel_from-offers_example =
    take_travel_from-offers 120000 clocks sent_bot errand
      (record { id = codes "p0"; destination = 11; position = 12 }) taken

take_travel_from-Accounted_example :
    Accounted clocks sent_bot (take_travel_from 120000 clocks sent_bot)
unfolding is_applied_kind one_of bytes_eq
take_travel_from-Accounted_example = take_travel_from-Accounted 120000 clocks sent_bot refl refl

store_outcome-newest_example :
    ((store_outcome (pos 9) sent_bot (codes "i1") [] (codes "completed") [] []).outcomes
      ≡ drop (length sent_bot.outcomes - 3) sent_bot.outcomes
        ++ outcome_of (pos 9) (codes "i1") [] (codes "completed") [] [] ∷ [])
    × (length (store_outcome (pos 9) sent_bot (codes "i1") [] (codes "completed") [] []).outcomes
        ≤ max_queued_outcomes)
store_outcome-newest_example =
    store_outcome-newest (pos 9) sent_bot (codes "i1") [] (codes "completed") [] [] refl

-- A bot that is at its destination, and an AI that does what it is told.
abbrev seller : BotPlanState
seller = record sent_bot {
  has_active_travel = true;
  active_kind = intent_vendor_sell;
  active_destination = 11;
}

abbrev willing : DoAction
willing = λ name source param. true

sold : (observe willing 6 (some (11, work)) seller).result ≡ some (codes "completed")
unfolding observe has_arrival_action one_of bytes_eq
sold = refl

observe-completed_example :
    (reached is_arrival seller (some (11, work)) ≡ true)
    × ((not (has_arrival_action seller.active_kind)
          || (perform_arrival_action willing seller.active_kind).0)
        ≡ true)
observe-completed_example = observe-completed willing 6 (some (11, work)) seller sold

gave_up : (observe willing 6 (some (11, expired)) seller).reason ≡ codes "unreachable"
unfolding observe
gave_up = refl

observe-unreachable_example : reached is_gone seller (some (11, expired)) ≡ true
observe-unreachable_example = observe-unreachable willing 6 (some (11, expired)) seller gave_up
