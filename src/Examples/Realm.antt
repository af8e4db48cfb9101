-- ===== src/Examples/Realm.antt =====
-- Runs of calls, batches, strategies and the handshake.
use twow_repo.Base.{
  ◌+◌, ◌≤◌, ◌<◌, ◌≡◌, ◌⊎◌, refl, arith, true, false, ◌==◌, List, [], ◌∷◌, none, some, any, codes,
  All,
}
use twow_repo.Base.Int.{pos}
use twow_repo.Wire.Vocabulary.{intent_travel_to}
use twow_repo.Wire.Types.{StrategyChange}
use twow_repo.Pipeline.State.{OwnedStrategy, find_state}
use twow_repo.Pipeline.Directives.{Engine}
use twow_repo.Pipeline.Strategies.{next_owned, handed_back, keep_known}
use twow_repo.Pipeline.Strategies.Priors.{IsHonest, RestoresOriginal, reconcile-gives_back}
use twow_repo.Pipeline.Batch.{batch_limit, join_batch, hand_over_all}
use twow_repo.Pipeline.Batch.Sizes.{size, join_batch-size}
use twow_repo.Pipeline.Batch.Handover.{served, find_state-hand_over_all}
use twow_repo.Examples.Samples.{snapshot}
use twow_repo.Pipeline.Counters.{run, travel_started, travel_ended, forgotten}
use twow_repo.Pipeline.Counters.Active.{IsActiveCounted}
use twow_repo.Pipeline.Counters.Runs.{run-IsActiveCounted}
use twow_repo.Pipeline.Counters.Standing.{standing_count}
use twow_repo.Pipeline.Counters.Covered.{run-covers_standing}
use twow_repo.Pipeline.State.{BatchExchange}
use twow_repo.Pipeline.Counters.{answered}
use twow_repo.Base.{if◌then◌else◌}
use twow_repo.Wire.Json.{Json, integer, string, array, object, end, element, member, done}
use twow_repo.Examples.Samples.{library_of}
use twow_repo.Pipeline.Handshake.{
  HttpResult, handshake, booted, retried, worker_ended, handshake_run,
}
use twow_repo.Pipeline.Handshake.Admitted.{
  answers_for, handshake-admitted, IsSteady, handshake_run-IsSteady,
}
use twow_repo.Examples.World.{condition, quiet_world}

run-IsActiveCounted_example : IsActiveCounted (
    run
      (travel_started 6 (some 7) (codes "i1") intent_travel_to (codes "p0") 11
        ∷ travel_ended (pos 0) 7 (codes "completed") []
        ∷ forgotten 7
        ∷ [])
      quiet_world)
run-IsActiveCounted_example =
    run-IsActiveCounted
      (travel_started 6 (some 7) (codes "i1") intent_travel_to (codes "p0") 11
        ∷ travel_ended (pos 0) 7 (codes "completed") []
        ∷ forgotten 7
        ∷ [])
      quiet_world refl

join_batch-size_example :
    ((size (join_batch 6 200 2 7 snapshot none).0 ≡ size none + 1)
      × (size none + 1 < batch_limit 2)
      × ((join_batch 6 200 2 7 snapshot none).1 ≡ none))
    ⊎ (((join_batch 6 200 2 7 snapshot none).0 ≡ none)
        × (size (join_batch 6 200 2 7 snapshot none).1 ≡ batch_limit 2)
        × (size none + 1 ≡ batch_limit 2))
join_batch-size_example = join_batch-size 6 200 2 7 snapshot none (omega arith) (omega arith)

find_state-hand_over_all_example :
    find_state 7 (hand_over_all 3 (8 ∷ 7 ∷ []) quiet_world.states)
    ≡ served 3 (any (λ g. 7 == g) (8 ∷ 7 ∷ [])) (find_state 7 quiet_world.states)
find_state-hand_over_all_example = find_state-hand_over_all 3 7 (8 ∷ 7 ∷ []) quiet_world.states

-- An engine that has no strategy on.
abbrev idle_engine : Engine
idle_engine = record { has_strategy = λ name state. false; is_registered = λ name. true }

abbrev held : List OwnedStrategy
held = record { name = codes "grind"; state = codes "combat"; desired = true; prior = false } ∷ []

abbrev wanted : List StrategyChange
wanted = record { name = codes "rest"; state = codes "combat"; enable = true } ∷ []

reconcile-gives_back_example :
    All
      (IsHonest (λ name state. false))
      (keep_known idle_engine 0 (next_owned idle_engine held wanted))
    × All
        (RestoresOriginal (λ name state. false))
        (handed_back (next_owned idle_engine held wanted) held)
reconcile-gives_back_example =
    reconcile-gives_back idle_engine (λ name state. false) held wanted 0 (refl, tt)
      (λ name state e. refl)

-- A reply that gives the bot a standing intent.
abbrev told : BatchExchange
told = record {
  result_ok = true;
  decoded = true;
  response = record {
    contract_version = [];
    request_id = [];
    intents = condition ∷ [];
    errors = [];
    plan_ms = pos 0;
    degraded_reason = [];
  };
}

run-covers_standing_example :
    standing_count (
      run
        (answered (record { backoff_ms = 60000; interval_ms = 15000 }) 6 1 7 7 told
          ∷ forgotten 7
          ∷ [])
        quiet_world)
    ≤ (run
        (answered (record { backoff_ms = 60000; interval_ms = 15000 }) 6 1 7 7 told
          ∷ forgotten 7
          ∷ [])
        quiet_world).standing_bots
run-covers_standing_example =
    run-covers_standing
      (answered (record { backoff_ms = 60000; interval_ms = 15000 }) 6 1 7 7 told
        ∷ forgotten 7
        ∷ [])
      quiet_world (omega arith) (omega arith)

abbrev contract_json : Json
contract_json = object (
    member (codes "version") (string (codes "1.2")) (
      member (codes "supported_majors") (array (element (integer (pos 1)) end))
        (member (codes "max_batch") (integer (pos 2048)) done)))

abbrev reply : HttpResult
reply = record { is_ok = true; body = codes "{}"; error = [] }

handshake-admitted_example :
    ((handshake (library_of contract_json) reply true quiet_world).0.admitted
      ≡ (if true then answers_for (library_of contract_json) reply else false))
    × ((handshake (library_of contract_json) reply true quiet_world).1
        ≡ (if true then answers_for (library_of contract_json) reply else false))
handshake-admitted_example = handshake-admitted (library_of contract_json) reply true quiet_world

handshake_run-IsSteady_example : IsSteady (
    handshake_run
      (booted (library_of contract_json) reply false
        ∷ retried 6 60000 true
        ∷ worker_ended (library_of contract_json) (some reply)
        ∷ retried 7 60000 true
        ∷ [])
      quiet_world)
handshake_run-IsSteady_example =
    handshake_run-IsSteady
      (booted (library_of contract_json) reply false
        ∷ retried 6 60000 true
        ∷ worker_ended (library_of contract_json) (some reply)
        ∷ retried 7 60000 true
        ∷ [])
      quiet_world ((omega arith, omega arith), tt)
