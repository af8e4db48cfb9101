-- ===== src/Pipeline/State.antt =====
-- The structs of `BotBrainPipeline.cpp`, and what it keeps: `g_states`, the two counters, the pending
-- batch and the exchanges. Pointers are numbers, 0 the null one; a batch exchange, which several
-- bots share, is a number that `answers` gives the settled contents of.
pub mod Store
use twow_repo.Base.{
  ℕ, ◌%◌, ◌^◌, ◌+◌, ◌-◌, Bool, true, false, not, ◌||◌, List, [], ◌∷◌, Option, none, some, ◌==◌,
  if◌then◌else◌, Bytes, is_empty,
}
use twow_repo.Base.Int.{ℤ}
use twow_repo.Wire.Double.{Double}
use twow_repo.Wire.Types.{Intent, IntentOutcome, Snapshot, PlanResponse, new_intent}

pub record ResolvedPoi : Type 0 where
  pub id : Bytes
  pub destination : ℕ
  pub position : ℕ

pub data Phase : Type 0 where
  idle : Phase
  awaiting_destinations : Phase
  awaiting_plan : Phase

pub record OwnedStrategy : Type 0 where
  pub name : Bytes
  pub state : Bytes
  pub desired : Bool
  pub prior : Bool

-- An entry of the travel list: two pointers and a distance.
pub record TravelPoint : Type 0 where
  pub destination : ℕ
  pub position : ℕ
  pub distance : Double

pub record DestinationExchange : Type 0 where
  pub done : Bool
  pub list : List (List TravelPoint)

pub record IdentityExchange : Type 0 where
  pub done : Bool
  pub uuid : Bytes

pub record PersonalityExchange : Type 0 where
  pub done : Bool
  pub resolved : Bool
  pub keys : List Bytes

pub record BotPlanState : Type 0 where
  pub phase : Phase
  pub next_request_ms : ℕ
  pub destinations : Option DestinationExchange
  pub batch : Option ℕ
  pub poi_table : List ResolvedPoi
  pub poi_table_at_ms : ℕ
  pub has_intent : Bool
  pub intent : Intent
  pub has_standing_intent : Bool
  pub standing_intent : Intent
  pub standing_answered : Bool
  pub owned_strategies : List OwnedStrategy
  pub outcomes : List IntentOutcome
  pub outcomes_dropped : ℕ
  pub has_active_travel : Bool
  pub active_intent_id : Bytes
  pub active_kind : Bytes
  pub active_poi_id : Bytes
  pub active_travel_at_ms : ℕ
  pub active_destination : ℕ
  pub uuid : Bytes
  pub identity : Option IdentityExchange
  pub next_identity_attempt_ms : ℕ
  pub trait_keys : List Bytes
  pub traits_resolved : Bool
  pub personality : Option PersonalityExchange
  pub next_personality_attempt_ms : ℕ

abbrev pub new_state : BotPlanState
new_state = record {
  phase = idle;
  next_request_ms = 0;
  destinations = none;
  batch = none;
  poi_table = [];
  poi_table_at_ms = 0;
  has_intent = false;
  intent = new_intent;
  has_standing_intent = false;
  standing_intent = new_intent;
  standing_answered = false;
  owned_strategies = [];
  outcomes = [];
  outcomes_dropped = 0;
  has_active_travel = false;
  active_intent_id = [];
  active_kind = [];
  active_poi_id = [];
  active_travel_at_ms = 0;
  active_destination = 0;
  uuid = [];
  identity = none;
  next_identity_attempt_ms = 0;
  trait_keys = [];
  traits_resolved = false;
  personality = none;
  next_personality_attempt_ms = 0;
}

-- Whether `g_standingBots` is meant to count this bot.
abbrev pub is_standing : BotPlanState → Bool
is_standing s = s.has_standing_intent || not (is_empty s.owned_strategies)

pub record BatchExchange : Type 0 where
  pub result_ok : Bool
  pub decoded : Bool
  pub response : PlanResponse

pub record PendingBatch : Type 0 where
  pub snapshots : List Snapshot
  pub guids : List ℕ
  pub flush_deadline_ms : ℕ

pub record HandshakeExchange : Type 0 where
  pub done : Bool
  pub is_ok : Bool
  pub skew : Bool
  pub version : Bytes
  pub max_batch : ℤ
  pub error : Bytes

-- `g_states`, with one entry for a key.
abbrev pub States : Type 0
States = List (ℕ × BotPlanState)

pub record World : Type 0 where
  pub states : States
  pub active_travels : ℕ
  pub standing_bots : ℕ
  pub pending_batch : Option PendingBatch
  pub answers : List (ℕ × BatchExchange)
  pub max_batch : ℕ
  pub admitted : Bool
  pub shutting_down : Bool
  pub handshake_attempt : Option HandshakeExchange
  pub next_handshake_ms : ℕ

-- `Find`: the state of a bot, or null.
unfoldable pub find_state : ℕ → States → Option BotPlanState
find_state raw [] = none
find_state raw ((k, s) ∷ rest) = if raw == k then some s else find_state raw rest

-- `if (!state) return missing; …`.
unfoldable pub if_found {ℓ} : {A : Type ℓ} → Option BotPlanState → A → (BotPlanState → A) → A
if_found none missing f = missing
if_found (some s) missing f = f s

-- Writing through the pointer that `Find` or `g_states[raw]` gave.
unfoldable pub put_state : ℕ → BotPlanState → States → States
put_state raw new [] = (raw, new) ∷ []
put_state raw new ((k, s) ∷ rest) =
    let later = put_state raw new rest in if raw == k then (k, new) ∷ rest else (k, s) ∷ later

-- `g_states.erase`.
unfoldable pub erase_state : ℕ → States → States
erase_state raw [] = []
erase_state raw ((k, s) ∷ rest) =
    let later = erase_state raw rest in if raw == k then rest else (k, s) ∷ later

-- `g_states[raw]`: a key that is missing gets a new state.
abbrev pub state_or_new : Option BotPlanState → BotPlanState
state_or_new none = new_state
state_or_new (some s) = s

unfoldable pub state_at : ℕ → States → BotPlanState
state_at raw states = state_or_new (find_state raw states)

-- `fetch_add(1)` and `fetch_sub(1)` on a `uint32` counter.
unfoldable pub counter_up : ℕ → ℕ
counter_up n = (n + 1) % 2 ^ 32

unfoldable pub counter_down : ℕ → ℕ
counter_down n = (n + (2 ^ 32 - 1)) % 2 ^ 32
