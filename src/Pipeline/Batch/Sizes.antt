-- ===== src/Pipeline/Batch/Sizes.antt =====
-- How large a batch becomes, and who is in it.
use twow_repo.Base.{
  ℕ, ◌+◌, ◌^◌, ◌<◌, [], ◌∷◌, Option, none, some, length, length-append, ◌≡◌, ◌⊎◌, inl, inr, refl,
  arith, Bool-cases,
}
use twow_repo.Wire.Types.{Snapshot}
use twow_repo.Pipeline.State.{PendingBatch}
use twow_repo.Pipeline.Batch.{open_batch, with_member, batch_limit, is_full, join_batch}

abbrev pub size : Option PendingBatch → ℕ
size none = 0
size (some b) = length b.snapshots

length-with_member :
    (now flush_ms raw : ℕ) (snapshot : Snapshot) (pending : Option PendingBatch)
    → length (with_member raw snapshot (open_batch now flush_ms pending)).snapshots
      ≡ size pending + 1
unfolding with_member open_batch
length-with_member now flush_ms raw snapshot none = refl
length-with_member now flush_ms raw snapshot (some b) =
    rw (length-append b.snapshots (snapshot ∷ [])) refl

-- If the batch that is pending is smaller than the negotiated size, below 2^32, then after a
-- snapshot has joined the pending one is still smaller, or it has been taken to be sent at exactly
-- that size and none is pending.
pub join_batch-size :
    (now flush_ms max_batch raw : ℕ) (snapshot : Snapshot) (pending : Option PendingBatch)
    → max_batch < 2 ^ 32
    → size pending < batch_limit max_batch
    → ((size (join_batch now flush_ms max_batch raw snapshot pending).0 ≡ size pending + 1)
        × (size pending + 1 < batch_limit max_batch)
        × ((join_batch now flush_ms max_batch raw snapshot pending).1 ≡ none))
      ⊎ (((join_batch now flush_ms max_batch raw snapshot pending).0 ≡ none)
          × (size (join_batch now flush_ms max_batch raw snapshot pending).1
              ≡ batch_limit max_batch)
          × (size pending + 1 ≡ batch_limit max_batch))
unfolding join_batch is_full
join_batch-size now flush_ms max_batch raw snapshot pending small room =
    let n = length-with_member now flush_ms raw snapshot pending in
    elim (Bool-cases
      (is_full max_batch (with_member raw snapshot (open_batch now flush_ms pending)))) [
        | inl full ↦ inr (ground (arith, n), ground (arith, n), ground (arith, n))
        | inr more ↦ inl (ground (arith, n), ground (arith, n), ground (arith, n))
      ]
