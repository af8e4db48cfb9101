-- ===== src/Pipeline/Batch.antt =====
-- The shared batch: the end of phase B of `Tick`, `MaybeFlushPendingBatch` and `DispatchBatch`.
pub mod Sizes
pub mod Handover
use twow_repo.Base.{
  ℕ, ◌%◌, ◌^◌, Bool, true, false, not, ◌||◌, List, [], ◌∷◌, ◌++◌, Option, none, some, leb, ◌==◌,
  length, if◌then◌else◌,
}
use twow_repo.Wire.Types.{Snapshot}
use twow_repo.Pipeline.Clock.{add32, elapsed}
use twow_repo.Pipeline.State.{
  ResolvedPoi, Phase, idle, awaiting_destinations, awaiting_plan, BotPlanState, PendingBatch,
  States, World, find_state, put_state, state_at,
}

-- The batch that a snapshot joins: the pending one, or one that is opened now.
unfoldable pub open_batch : ℕ → ℕ → Option PendingBatch → PendingBatch
open_batch now flush_ms none = record {
  snapshots = [];
  guids = [];
  flush_deadline_ms = add32 now flush_ms;
}
open_batch now flush_ms (some b) = b

unfoldable pub with_member : ℕ → Snapshot → PendingBatch → PendingBatch
with_member raw snapshot b = record b {
  snapshots = b.snapshots ++ snapshot ∷ [];
  guids = b.guids ++ raw ∷ [];
}

-- `maxBatch ? maxBatch : 1`.
abbrev pub batch_limit : ℕ → ℕ
batch_limit max_batch = if max_batch == 0 then 1 else max_batch

unfoldable pub is_full : ℕ → PendingBatch → Bool
is_full max_batch b = leb (batch_limit max_batch) (length b.snapshots % 2 ^ 32)

-- `g_pendingBatch` and `toDispatch` after a snapshot has joined.
unfoldable pub join_batch :
    ℕ → ℕ → ℕ → ℕ → Snapshot → Option PendingBatch → Option PendingBatch × Option PendingBatch
unfolding open_batch with_member is_full
join_batch now flush_ms max_batch raw snapshot pending =
    let joined = with_member raw snapshot (open_batch now flush_ms pending) in
    if is_full max_batch joined then (none, some joined) else (some joined, none)

-- The bot's own part of the critical section.
unfoldable pub await_plan : ℕ → List ResolvedPoi → BotPlanState → BotPlanState
await_plan now table s = record s {
  poi_table = table;
  poi_table_at_ms = now;
  phase = awaiting_plan;
  batch = none;
}

abbrev pub is_awaiting_plan : Phase → Bool
is_awaiting_plan awaiting_plan = true
is_awaiting_plan _ = false

-- One turn of the loop of `DispatchBatch`, for what `Find` gives.
unfoldable pub hand_to : ℕ → ℕ → Option BotPlanState → States → States
hand_to exchange raw none states = states
hand_to exchange raw (some s) states =
    if is_awaiting_plan s.phase
    then put_state raw (record s { batch = some exchange }) states
    else states

unfoldable pub hand_over : ℕ → States → ℕ → States
unfolding hand_to
hand_over exchange states raw = hand_to exchange raw (find_state raw states) states

unfoldable pub hand_over_all : ℕ → List ℕ → States → States
unfolding hand_over
hand_over_all exchange [] states = states
hand_over_all exchange (g ∷ gs) states = hand_over_all exchange gs (hand_over exchange states g)

-- `DispatchBatch`, once the worker is spawned that will settle `exchange`.
unfoldable pub dispatch : ℕ → Option PendingBatch → World → World
unfolding hand_over_all
dispatch exchange none w = w
dispatch exchange (some b) w = record w { states = hand_over_all exchange b.guids w.states }

-- The end of phase B for a snapshot that passes.
unfoldable pub join : ℕ → ℕ → ℕ → ℕ → List ResolvedPoi → Snapshot → World → World
unfolding join_batch await_plan dispatch
join exchange now flush_ms raw table snapshot w =
    let joined = join_batch now flush_ms w.max_batch raw snapshot w.pending_batch in
    dispatch exchange joined.1 (record w {
      states = put_state raw (await_plan now table (state_at raw w.states)) w.states;
      pending_batch = joined.0;
    })

-- The end of phase B for a snapshot that `ValidateSnapshot` refuses.
unfoldable pub refuse_locally : ℕ → ℕ → ℕ → World → World
refuse_locally now backoff_ms raw w = record w {
  states =
      put_state raw
        (record (state_at raw w.states) { phase = idle; next_request_ms = add32 now backoff_ms })
        w.states;
}

-- Whether the pending batch has waited long enough.
unfoldable pub is_due : ℕ → Option PendingBatch → Bool
is_due now none = false
is_due now (some b) = elapsed now b.flush_deadline_ms

-- `MaybeFlushPendingBatch`; `enabled` is the setting.
unfoldable pub maybe_flush : ℕ → ℕ → Bool → World → World
unfolding is_due dispatch
maybe_flush exchange now enabled w =
    if w.shutting_down || not enabled
    then w
    else if not (is_due now w.pending_batch)
    then w
    else dispatch exchange w.pending_batch (record w { pending_batch = none })
