-- ===== src/Bridge/Runs/Lifecycle/Records.antt =====
-- What the lines of the child do to the table in one round.
use twow_repo.Base.{
  ℕ, true, false, not, List, Option, none, some, ◌≡◌, refl, sym, subst, ◌⊎◌, inl, inr,
  if◌then◌else◌, if-keeps, Bytes, codes,
}
use twow_repo.Wire.Json.{Json}
use twow_repo.Bridge.Messages.Dispositions.{nothing, is_fatal_top_level_error, validate_ready}
use twow_repo.Bridge.State.{
  Status, ready, protocol_failed, child_failed, Routes, Delivery, Impl, fail,
}
use twow_repo.Bridge.Responses.{apply_response}
use twow_repo.Bridge.Worker.{Bridge, fail_worker, handle_record, applied, is_nothing}
use twow_repo.Bridge.Runs.Kept.{IsKept}
use twow_repo.Bridge.Runs.Worker.{Sound, Sound-kept, handle_record-IsSound}
use twow_repo.Bridge.Runs.Lifecycle.{OneTurn}
use twow_repo.Bridge.Runs.Lifecycle.Answers.{apply_response-OneTurn}
use twow_repo.Bridge.Runs.Lifecycle.Turns.{same-OneTurn}

-- Sound; and with the table of the start, or one turn on and with no answer awaited any more.
module _ (start : Routes) (held : List Delivery) where
  abbrev pub Turned : Bridge → Type 0
  Turned b = (b.impl.routes ≡ start) ⊎ (OneTurn start b.impl.routes × (b.pending_kind ≡ nothing))

  abbrev pub Moved : Bridge → Type 0
  Moved b = Sound held b × Turned b

  pub Turned-OneTurn : (b : Bridge) → Turned b → OneTurn start b.impl.routes
  Turned-OneTurn b (inl e) = subst (OneTurn start) (sym e) (same-OneTurn start)
  Turned-OneTurn b (inr (m, n)) = m

  failed-Turned :
      (state : Status) (reason : Bytes) (b : Bridge)
      → Turned b
      → Turned (fail_worker state reason b)
  unfolding fail_worker fail
  failed-Turned state reason b m = m

  applied-Turned :
      (now : ℕ) (v : Json) (b : Bridge) (o : Option Impl)
      → apply_response now b.pending_kind b.pending_request v b.impl ≡ o
      → is_nothing b.pending_kind ≡ false
      → Moved b
      → Turned (applied o b)
  unfolding applied fail_worker fail is_nothing
  applied-Turned now v b none e n h = h.1
  applied-Turned now v b (some s) e n (sound, inl same) = inr (
    subst (λ t. OneTurn t s.routes) same
        (apply_response-OneTurn now b.pending_kind b.pending_request v b.impl s sound.awaited
          sound.tables.ascending e),
    refl,
  )
  applied-Turned now v b (some s) e n (sound, inr (m, none_awaited)) = absurd (cc)

  handle_record-Turned :
      (now : ℕ) (v : Json) (b : Bridge) → Moved b → Turned (handle_record now v b)
  unfolding handle_record
  handle_record-Turned now v b h =
      let s = b.impl in
      let opened = record b { impl = record s { status = ready }; is_up = true } in
      let mismatch = fail_worker protocol_failed (codes "ready_mismatch") b in
      let fatal = fail_worker child_failed (codes "fatal_startup_error") b in
      let unasked = fail_worker protocol_failed (codes "response_contract_mismatch") b in
      let answered = applied (apply_response now b.pending_kind b.pending_request v b.impl) b in
      if-keeps Turned (not b.is_up)
        (if is_fatal_top_level_error v
          then fatal
          else if not (validate_ready v)
          then mismatch
          else opened)
        (if is_nothing b.pending_kind then unasked else answered)
        (λ _.
          if-keeps Turned (is_fatal_top_level_error v) fatal
            (if not (validate_ready v) then mismatch else opened)
            (λ _. failed-Turned child_failed (codes "fatal_startup_error") b h.1)
            (λ _.
              if-keeps Turned (not (validate_ready v)) mismatch opened
                (λ _. failed-Turned protocol_failed (codes "ready_mismatch") b h.1) (λ _. h.1)))
        (λ _.
          if-keeps Turned (is_nothing b.pending_kind) unasked answered
            (λ _. failed-Turned protocol_failed (codes "response_contract_mismatch") b h.1)
            (λ n.
              applied-Turned now v b (apply_response now b.pending_kind b.pending_request v b.impl)
                refl n h))

  pub Moved-kept : IsKept Moved
  Moved-kept = record {
    fails = λ state reason b c h.
        ((Sound-kept held).fails state reason b c h.0, failed-Turned state reason b h.1);
    leaves = λ b h. ((Sound-kept held).leaves b h.0, h.1);
    reads = λ b buffer ring h. ((Sound-kept held).reads b buffer ring h.0, h.1);
    handles = λ now v b h. (handle_record-IsSound held now v b h.0, handle_record-Turned now v b h);
  }
