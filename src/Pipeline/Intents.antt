-- ===== src/Pipeline/Intents.antt =====
-- `TakeTravelIntent`, `HasPendingAppliedIntent` and `TakeAppliedIntent`: how the two appliers take
-- an errand out of a bot's slot. `none` for a bot is the null pointer.
pub mod Offers
use twow_repo.Base.{
  ℕ, Bool, true, false, not, ◌&&◌, ◌||◌, List, [], Option, none, some, ◌==◌, find, if◌then◌else◌,
  Bytes, codes, bytes_eq, is_empty,
}
use twow_repo.Base.Int.{ℤ}
use twow_repo.Wire.Vocabulary.{is_poi_directed_kind, is_applied_kind, is_standing_kind}
use twow_repo.Wire.Types.{Intent}
use twow_repo.Pipeline.Clock.{add32, elapsed, is_expired}
use twow_repo.Pipeline.State.{BotPlanState, ResolvedPoi, World, if_found, find_state, put_state}
use twow_repo.Pipeline.Outcomes.{store_outcome}

-- The clocks that a call reads: `WorldTimer::getMSTime()`, `NowUnixMs()`, and the `NowUnixMs()` that
-- an outcome is stored with.
pub record Clocks : Type 0 where
  pub world_ms : ℕ
  pub unix_ms : ℤ
  pub stored_ms : ℤ

-- The slot is emptied, and the outcome of the intent that was in it is stored.
turn_down : Clocks → BotPlanState → Bytes → Bytes → Bytes → BotPlanState
turn_down c s result reason poi_id =
    store_outcome c.stored_ms (record s { has_intent = false }) s.intent.intent_id s.intent.kind
      result reason poi_id

abbrev pub names_poi : Bytes → ResolvedPoi → Bool
names_poi id row = bytes_eq row.id id

-- The loop over the table: the first row with the id decides.
unfoldable pub take_row :
    Clocks → BotPlanState → Option ResolvedPoi → BotPlanState × Option (Intent × ResolvedPoi)
unfolding turn_down
take_row c s none =
    (turn_down c s (codes "rejected") (codes "unknown_poi") s.intent.travel_poi_id, none)
take_row c s (some row) =
    if row.destination == 0 || row.position == 0
    then (turn_down c s (codes "rejected") (codes "unreachable") s.intent.travel_poi_id, none)
    else (record s { has_intent = false }, some (s.intent, row))

-- `TakeTravelIntent` on the state that `Find` gives; `ttl` is `cfg.poiTableTtlMs`.
unfoldable pub take_travel_from :
    ℕ → Clocks → BotPlanState → BotPlanState × Option (Intent × ResolvedPoi)
unfolding turn_down take_row
take_travel_from ttl c s =
    if not s.has_intent
    then (s, none)
    else if is_applied_kind s.intent.kind
    then (s, none)
    else if not (is_poi_directed_kind s.intent.kind)
    then (turn_down c s (codes "rejected") (codes "unsupported_kind") s.intent.travel_poi_id, none)
    else if not s.intent.has_travel || is_empty s.intent.travel_poi_id
    then (turn_down c s (codes "rejected") (codes "unknown_poi") s.intent.travel_poi_id, none)
    else if is_expired s.intent.expires_at_ms c.unix_ms
    then (turn_down c s (codes "expired") [] s.intent.travel_poi_id, none)
    else if elapsed c.world_ms (add32 s.poi_table_at_ms ttl)
    then (turn_down c s (codes "rejected") (codes "stale_poi") s.intent.travel_poi_id, none)
    else take_row c s (find (names_poi s.intent.travel_poi_id) s.poi_table)

unfoldable pub take_travel_intent :
    ℕ → Clocks → Option ℕ → World → World × Option (Intent × ResolvedPoi)
take_travel_intent ttl c none w = (w, none)
take_travel_intent ttl c (some raw) w =
    if_found (find_state raw w.states) (w, none)
      (λ s. (
        record w { states = put_state raw (take_travel_from ttl c s).0 w.states },
        (take_travel_from ttl c s).1,
      ))

-- `HasPendingAppliedIntent` on the state that `Find` gives.
unfoldable pub has_pending_applied : BotPlanState → Bool
has_pending_applied s =
    if not s.has_intent
    then false
    else is_applied_kind s.intent.kind && not (is_standing_kind s.intent.kind)

unfoldable pub has_pending_applied_intent : Option ℕ → World → Bool
has_pending_applied_intent none w = false
has_pending_applied_intent (some raw) w =
    if_found (find_state raw w.states) false (λ s. has_pending_applied s)

-- `TakeAppliedIntent` on the state that `Find` gives.
unfoldable pub take_applied_from : Clocks → BotPlanState → BotPlanState × Option Intent
unfolding turn_down
take_applied_from c s =
    if not s.has_intent
    then (s, none)
    else if not (is_applied_kind s.intent.kind) || is_standing_kind s.intent.kind
    then (s, none)
    else if is_expired s.intent.expires_at_ms c.unix_ms
    then (turn_down c s (codes "expired") [] [], none)
    else (record s { has_intent = false }, some s.intent)

unfoldable pub take_applied_intent : Clocks → Option ℕ → World → World × Option Intent
take_applied_intent c none w = (w, none)
take_applied_intent c (some raw) w =
    if_found (find_state raw w.states) (w, none)
      (λ s. (
        record w { states = put_state raw (take_applied_from c s).0 w.states },
        (take_applied_from c s).1,
      ))
