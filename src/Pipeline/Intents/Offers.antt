-- ===== src/Pipeline/Intents/Offers.antt =====
-- What an applier is handed, and what becomes of an intent that it is not handed.
use twow_repo.Base.{
  ℕ, Bool, true, false, not, ◌&&◌, ◌||◌, [], Option, none, some, ◌==◌, find, if◌then◌else◌, Bytes,
  codes, is_empty, ◌≡◌, ◌⊎◌, inl, inr, Bool-cases, refl, arith,
}
use twow_repo.Wire.Vocabulary.{is_poi_directed_kind, is_applied_kind}
use twow_repo.Wire.Types.{Intent}
use twow_repo.Pipeline.Clock.{add32, elapsed, is_expired}
use twow_repo.Pipeline.State.{BotPlanState, ResolvedPoi}
use twow_repo.Pipeline.Outcomes.{store_outcome}
use twow_repo.Pipeline.Intents.{Clocks, names_poi, take_row, take_travel_from, take_applied_from}

-- An errand that the travel chooser may be handed now, whatever its table says.
abbrev pub is_current : ℕ → Clocks → BotPlanState → Bool
is_current ttl c s =
    s.has_intent
    && not (is_applied_kind s.intent.kind)
    && is_poi_directed_kind s.intent.kind
    && s.intent.has_travel
    && not (is_empty s.intent.travel_poi_id)
    && not (is_expired s.intent.expires_at_ms c.unix_ms)
    && not (elapsed c.world_ms (add32 s.poi_table_at_ms ttl))

-- What the travel chooser is handed is the errand in the slot, of a kind that goes to a place, not
-- expired, and the first row of a table that is not stale that has the place's id, with both of
-- its pointers; and the slot is then empty and nothing else of the state has changed.
pub take_travel_from-offers :
    (ttl : ℕ) (c : Clocks) (s : BotPlanState) (intent : Intent) (row : ResolvedPoi)
    → (take_travel_from ttl c s).1 ≡ some (intent, row)
    → (is_current ttl c s ≡ true)
      × (intent ≡ s.intent)
      × (find (names_poi s.intent.travel_poi_id) s.poi_table ≡ some row)
      × ((row.destination == 0 || row.position == 0) ≡ false)
      × ((take_travel_from ttl c s).0 ≡ record s { has_intent = false })
unfolding take_travel_from take_row
take_travel_from-offers ttl c s intent row h = ground arith

-- The errand was handed over, or turned down with a result and a reason that are stored.
abbrev pub Accounted : Clocks → BotPlanState → BotPlanState × Option (Intent × ResolvedPoi) → Type 0
Accounted c s r =
    ((row : ResolvedPoi) × (r ≡ (record s { has_intent = false }, some (s.intent, row))))
    ⊎ ((result : Bytes) × (reason : Bytes) × (r ≡ (
      store_outcome c.stored_ms (record s { has_intent = false }) s.intent.intent_id s.intent.kind
          result reason s.intent.travel_poi_id,
      none,
    )))

if-Accounted :
    (c : Clocks) (s : BotPlanState) (b : Bool) (r q : BotPlanState × Option (Intent × ResolvedPoi))
    → Accounted c s r
    → Accounted c s q
    → Accounted c s (if b then r else q)
if-Accounted c s true r q h k = h
if-Accounted c s false r q h k = k

take_row-Accounted :
    (c : Clocks) (s : BotPlanState) (found : Option ResolvedPoi)
    → Accounted c s (take_row c s found)
unfolding take_row
take_row-Accounted c s none = inr (codes "rejected", codes "unknown_poi", refl)
take_row-Accounted c s (some row) =
    if-Accounted c s (row.destination == 0 || row.position == 0) _ _
      (inr (codes "rejected", codes "unreachable", refl)) (inl (row, refl))

-- An errand in the slot that is the travel chooser's is never lost: it is handed over and
-- the slot is emptied, or the slot is emptied and an outcome for it goes to `StoreOutcome`.
pub take_travel_from-Accounted :
    (ttl : ℕ) (c : Clocks) (s : BotPlanState)
    → s.has_intent ≡ true
    → is_applied_kind s.intent.kind ≡ false
    → Accounted c s (take_travel_from ttl c s)
unfolding take_travel_from
take_travel_from-Accounted ttl c s held ours =
    rw (held, ours)
      (if-Accounted c s _ _ _ (inr (codes "rejected", codes "unsupported_kind", refl)) (
        if-Accounted c s _ _ _ (inr (codes "rejected", codes "unknown_poi", refl)) (
          if-Accounted c s _ _ _ (inr (codes "expired", [], refl)) (
            if-Accounted c s _ _ _ (inr (codes "rejected", codes "stale_poi", refl))
              (take_row-Accounted c s (find (names_poi s.intent.travel_poi_id) s.poi_table))))))

-- Of the two appliers at most one touches the slot: whatever it holds, the other finds nothing in
-- it that is its own and leaves the state as it is.
pub appliers-disjoint :
    (ttl : ℕ) (c : Clocks) (s : BotPlanState)
    → (take_travel_from ttl c s ≡ (s, none)) ⊎ (take_applied_from c s ≡ (s, none))
unfolding take_travel_from take_applied_from
appliers-disjoint ttl c s = elim (Bool-cases (is_applied_kind s.intent.kind)) [
  | inl ours ↦ inl (ground arith)
  | inr theirs ↦ inr (ground arith)
]
