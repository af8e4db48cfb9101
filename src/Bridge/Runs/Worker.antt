-- ===== src/Bridge/Runs/Worker.antt =====
-- The steps of the worker keep the client sound.
use twow_repo.Base.{
  ℕ, true, not, List, Option, none, some, ◌≡◌, refl, if◌then◌else◌, if-keeps, Bytes, codes,
}
use twow_repo.Wire.Json.{Json}
use twow_repo.Bridge.Messages.Dispositions.{is_fatal_top_level_error, validate_ready}
use twow_repo.Bridge.State.{Status, protocol_failed, child_failed, ready, Delivery, Impl, fail}
use twow_repo.Bridge.Responses.{apply_response}
use twow_repo.Bridge.Worker.{Bridge, fail_worker, leave, applied, is_nothing, handle_record}
use twow_repo.Bridge.Runs.Invariant.{is_open, IsSound}
use twow_repo.Bridge.Runs.Applied.{apply_response-Kept, status-Kept}
use twow_repo.Bridge.Runs.Kept.{IsKept, with_bytes}
use twow_repo.Bridge.Runs.Statuses.{apply_response-Latches, Latches-open, fail-closes, is_failure}

module _ (held : List Delivery) where
  abbrev pub Sound : Bridge → Type 0
  Sound b = IsSound b held

  -- A step that writes neither the tables nor the awaited request, and opens nothing.
  pub same-IsSound :
      (b b' : Bridge)
      → b'.impl.routes ≡ b.impl.routes
      → b'.impl.deliveries ≡ b.impl.deliveries
      → b'.pending_kind ≡ b.pending_kind
      → b'.pending_request ≡ b.pending_request
      → (is_open b'.impl ≡ true → b'.is_up ≡ true)
      → Sound b
      → Sound b'
  same-IsSound b b' e f k r o h = record {
    tables = status-Kept held b.impl b'.impl e f h.tables;
    up = o;
    awaited = rw (e, k, r) h.awaited;
  }

  pub fail_worker-IsSound :
      (state : Status) (reason : Bytes) (b : Bridge)
      → is_failure state ≡ true
      → Sound b
      → Sound (fail_worker state reason b)
  unfolding fail_worker fail
  fail_worker-IsSound state reason b c h =
      same-IsSound b (fail_worker state reason b) refl refl refl refl
        (λ o. let shut = fail-closes state reason b.impl c in absurd (cc)) h

  pub leave-IsSound : (b : Bridge) → Sound b → Sound (leave b)
  leave-IsSound b h = same-IsSound b (leave b) refl refl refl refl h.up h

  applied-IsSound :
      (now : ℕ) (v : Json) (b : Bridge) (o : Option Impl)
      → apply_response now b.pending_kind b.pending_request v b.impl ≡ o
      → Sound b
      → Sound (applied o b)
  unfolding applied
  applied-IsSound now v b none e h =
      fail_worker-IsSound protocol_failed (codes "response_contract_mismatch") b refl h
  applied-IsSound now v b (some s) e h = record {
    tables =
        apply_response-Kept held now b.pending_kind b.pending_request v b.impl s h.awaited h.tables
          e;
    up = λ o. h.up (
        Latches-open b.impl s
          (apply_response-Latches now b.pending_kind b.pending_request v b.impl s e) o);
    awaited = tt;
  }

  pub handle_record-IsSound :
      (now : ℕ) (v : Json) (b : Bridge) → Sound b → Sound (handle_record now v b)
  unfolding handle_record
  handle_record-IsSound now v b h =
      let s = b.impl in
      let opened = record b { impl = record s { status = ready }; is_up = true } in
      let mismatch = fail_worker protocol_failed (codes "ready_mismatch") b in
      let fatal = fail_worker child_failed (codes "fatal_startup_error") b in
      let unasked = fail_worker protocol_failed (codes "response_contract_mismatch") b in
      let answered = applied (apply_response now b.pending_kind b.pending_request v b.impl) b in
      if-keeps Sound (not b.is_up)
        (if is_fatal_top_level_error v
          then fatal
          else if not (validate_ready v)
          then mismatch
          else opened)
        (if is_nothing b.pending_kind then unasked else answered)
        (λ _.
          if-keeps Sound (is_fatal_top_level_error v) fatal
            (if not (validate_ready v) then mismatch else opened)
            (λ _. fail_worker-IsSound child_failed (codes "fatal_startup_error") b refl h)
            (λ _.
              if-keeps Sound (not (validate_ready v)) mismatch opened
                (λ _. fail_worker-IsSound protocol_failed (codes "ready_mismatch") b refl h)
                (λ _. same-IsSound b opened refl refl refl refl (λ _. refl) h)))
        (λ _.
          if-keeps Sound (is_nothing b.pending_kind) unasked answered
            (λ _. fail_worker-IsSound protocol_failed (codes "response_contract_mismatch") b refl h)
            (λ _.
              applied-IsSound now v b (apply_response now b.pending_kind b.pending_request v b.impl)
                refl h))

  -- The four of them, for soundness.
  pub Sound-kept : IsKept Sound
  Sound-kept = record {
    fails = fail_worker-IsSound;
    leaves = leave-IsSound;
    reads = λ b buffer ring h. same-IsSound b (with_bytes b buffer ring) refl refl refl refl h.up h;
    handles = handle_record-IsSound;
  }
