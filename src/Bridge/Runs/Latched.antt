-- ===== src/Bridge/Runs/Latched.antt =====
-- Once up, the client does not open again: the ledger's latch, a failure and a shutdown are final.
use twow_repo.Base.{
  ℕ, Bool, true, false, not, ◌&&◌, ◌||◌, List, [], ◌∷◌, Option, none, some, ◌≡◌, ◌≢◌, refl, ap, ◌∙◌,
  arith, inl, inr, if◌then◌else◌, if-keeps, Bytes, codes, length,
}
use twow_repo.Wire.Json.{Json}
use twow_repo.Bridge.Messages.Strict.{Parser}
use twow_repo.Bridge.Messages.Dispositions.{is_fatal_top_level_error, validate_ready}
use twow_repo.Bridge.State.{
  Status, ready, protocol_failed, child_failed, Delivery, Impl, is_ready, is_exhausted, fail,
  observe_session, invalidate_session, retire_route,
}
use twow_repo.Bridge.Admission.{Submission, admitted, try_submit}
use twow_repo.Bridge.Responses.{apply_response}
use twow_repo.Bridge.Commands.{
  Command, choose_command, choose_among, picked, poll, pick, room_for, drop_expired, accepted_ids,
}
use twow_repo.Bridge.Whispers.{World, deliver, take_deliveries}
use twow_repo.Bridge.Worker.{
  Bridge, with_impl, fail_worker, handle_record, applied, is_nothing, drain_lines, read_pipes,
  check_ends, send_command, sent, Writing, write_failed, begin_start, spawn_worker,
  request_shutdown, finish_shutdown,
}
use twow_repo.Bridge.Runs.{System, Event, perform, run, deliver_held, failure, on_worker}
use twow_repo.Bridge.Runs.Steps.{failure_lem}
use twow_repo.Bridge.Runs.Admitted.{try_submit-Admits}
use twow_repo.Bridge.Runs.Statuses.{apply_response-Latches, fail-closes, is_failure, Latches}
use twow_repo.Bridge.Runs.Kept.{
  IsKept, read_pipes-keeps, drain_lines-keeps, check_ends-keeps, wrote-keeps,
}

-- Up, and not open to submissions.
abbrev pub IsShut : Bridge → Type 0
IsShut b = (b.is_up ≡ true) × (is_ready b.impl.status ≡ false)

not_ready : (a c : Bool) → (a || c) ≡ false → a ≡ false
not_ready a c h = ground arith

fail_worker-IsShut :
    (state : Status) (reason : Bytes) (b : Bridge)
    → is_failure state ≡ true
    → IsShut b
    → IsShut (fail_worker state reason b)
unfolding fail_worker
fail_worker-IsShut state reason b c h = (
  h.0,
  not_ready (is_ready (fail state reason b.impl).status)
      (is_exhausted (fail state reason b.impl).status) (fail-closes state reason b.impl c),
)

Latches-shut : (old new : Status) → Latches old new → is_ready old ≡ false → is_ready new ≡ false
Latches-shut old new l h = ground arith

applied-IsShut :
    (now : ℕ) (v : Json) (b : Bridge) (o : Option Impl)
    → apply_response now b.pending_kind b.pending_request v b.impl ≡ o
    → IsShut b
    → IsShut (applied o b)
unfolding applied
applied-IsShut now v b none e h =
    fail_worker-IsShut protocol_failed (codes "response_contract_mismatch") b refl h
applied-IsShut now v b (some s) e h = (
  h.0,
  Latches-shut b.impl.status s.status
      (apply_response-Latches now b.pending_kind b.pending_request v b.impl s e) h.1,
)

up_and_down : (b : Bool) → b ≡ true → not b ≡ true → ⊥
up_and_down b h e = ground arith

handle_record-IsShut : (now : ℕ) (v : Json) (b : Bridge) → IsShut b → IsShut (handle_record now v b)
unfolding handle_record
handle_record-IsShut now v b h =
    let unasked = fail_worker protocol_failed (codes "response_contract_mismatch") b in
    let answered = applied (apply_response now b.pending_kind b.pending_request v b.impl) b in
    let s = b.impl in
    let first =
      if is_fatal_top_level_error v
      then fail_worker child_failed (codes "fatal_startup_error") b
      else if not (validate_ready v)
      then fail_worker protocol_failed (codes "ready_mismatch") b
      else record b { impl = record s { status = ready }; is_up = true } in
    if-keeps IsShut (not b.is_up) first (if is_nothing b.pending_kind then unasked else answered)
      (λ e. absurd (up_and_down b.is_up h.0 e))
      (λ _.
        if-keeps IsShut (is_nothing b.pending_kind) unasked answered
          (λ _. fail_worker-IsShut protocol_failed (codes "response_contract_mismatch") b refl h)
          (λ _.
            applied-IsShut now v b (apply_response now b.pending_kind b.pending_request v b.impl)
              refl h))

IsShut-kept : IsKept IsShut
IsShut-kept = record {
  fails = fail_worker-IsShut;
  leaves = λ b h. h;
  reads = λ b buffer ring h. h;
  handles = handle_record-IsShut;
}

poll-status : (now : ℕ) (ids : List Bytes) (s : Impl) → (poll now ids s).0.status ≡ s.status
unfolding poll
poll-status now ids s = ground arith

picked-status : (now : ℕ) (o : Option Command) (s : Impl) → (picked now o s).0.status ≡ s.status
unfolding picked
picked-status now none s = poll-status now (accepted_ids s.routes) s
picked-status now (some c) s = refl

-- A choice of a command leaves the state alone.
choose_command-status : (now : ℕ) (s : Impl) → (choose_command now s).0.status ≡ s.status
unfolding choose_command choose_among
choose_command-status now s =
    let t = record s { routes = drop_expired now s.routes } in
    let o = pick (is_ready t.status) (room_for t) t.routes in
    let p = picked-status now o t in ground arith

sent-IsShut : (w : Writing) (o : Option Command) (b : Bridge) → IsShut b → IsShut (sent w o b)
unfolding sent
sent-IsShut w none b h = h
sent-IsShut w (some c) b h =
    wrote-keeps IsShut IsShut-kept (if w.too_long then write_failed else w.result) w
      (record b { pending_kind = c.kind; pending_request = c.id }) h

send_command-IsShut :
    (now : ℕ) (w : Writing) (b : Bridge) → IsShut b → IsShut (send_command now w b)
unfolding send_command
send_command-IsShut now w b h =
    let chosen = choose_command now b.impl in
    if-keeps IsShut (b.is_up && is_nothing b.pending_kind) (sent w chosen.1 (with_impl b chosen.0))
      b
      (λ _.
        sent-IsShut w chosen.1 (with_impl b chosen.0)
          (h.0, ap is_ready (choose_command-status now b.impl) ∙ h.1))
      (λ _. h)

worker_keeps :
    (x : System) (f : Bridge → Bridge)
    → (IsShut x.bridge → IsShut (f x.bridge))
    → IsShut x.bridge
    → IsShut (on_worker x f).bridge
worker_keeps x f k h =
    if-keeps (λ y. IsShut y.bridge) x.bridge.running (record x { bridge = f x.bridge }) x (λ _. k h)
      (λ _. h)

submits-IsShut :
    (early : Status) (q : Submission) (b : Bridge)
    → IsShut b
    → IsShut (with_impl b (try_submit early q b.impl).0)
submits-IsShut early q b h = elim (try_submit-Admits early q b.impl) [
  | inl e ↦ (h.0, ap (λ t. is_ready t.status) e ∙ h.1)
  | inr (bot, target, l, r, e) ↦ (h.0, ap (λ t. is_ready t.status) e ∙ h.1)
]

begin_start-IsShut : (b : Bridge) → IsShut b → IsShut (with_impl b (begin_start b.impl))
unfolding begin_start
begin_start-IsShut b h = ground arith

spawn_worker-IsShut : (deadline : ℕ) (b : Bridge) → IsShut b → IsShut (spawn_worker deadline b)
unfolding spawn_worker
spawn_worker-IsShut deadline b h = ground arith

request_shutdown-IsShut :
    (now : ℕ) (b : Bridge) → IsShut b → IsShut (with_impl b (request_shutdown now b.impl))
unfolding request_shutdown
request_shutdown-IsShut now b h = ground arith

finish_shutdown-IsShut : (b : Bridge) → IsShut b → IsShut (finish_shutdown b)
unfolding finish_shutdown
finish_shutdown-IsShut b h = ground arith

refused :
    (early : Status) (q : Submission) (s : Impl)
    → is_ready s.status ≡ false
    → (try_submit early q s).1 ≢ admitted
unfolding try_submit
refused early q s h = ground arith

module _ (w : World) (p : Parser) where
  deliver_held-IsShut :
      (now : ℕ) (ds : List Delivery) (x : System)
      → IsShut x.bridge
      → IsShut (deliver_held w now ds x).0.bridge
  unfolding deliver_held deliver retire_route
  deliver_held-IsShut now [] x h = h
  deliver_held-IsShut now (d ∷ ds) x h = h

  perform-IsShut : (e : Event) (x : System) → IsShut x.bridge → IsShut (perform w p e x).0.bridge
  unfolding perform fail_worker fail
  perform-IsShut Event.start x h = begin_start-IsShut x.bridge h
  perform-IsShut (Event.spawns deadline) x h = spawn_worker-IsShut deadline x.bridge h
  perform-IsShut (Event.start_fails child reason) x h =
      fail_worker-IsShut (failure child) reason x.bridge (failure_lem child) h
  perform-IsShut (Event.observe guid account login name) x h = unfold observe_session in h
  perform-IsShut (Event.invalidate guid) x h = unfold invalidate_session in h
  perform-IsShut (Event.submits early q) x h = submits-IsShut early q x.bridge h
  perform-IsShut Event.world_takes x h = unfold take_deliveries in h
  perform-IsShut (Event.world_delivers now) x h = deliver_held-IsShut now x.held x h
  perform-IsShut (Event.reads out err) x h =
      worker_keeps x (read_pipes out err)
        (λ k. read_pipes-keeps IsShut IsShut-kept out err x.bridge k) h
  perform-IsShut (Event.drains now) x h =
      worker_keeps x (λ b. drain_lines (length b.stdout_buffer) p now b)
        (λ k. drain_lines-keeps IsShut IsShut-kept (length x.bridge.stdout_buffer) p now x.bridge k)
        h
  perform-IsShut (Event.checks e) x h =
      worker_keeps x (check_ends e) (λ k. check_ends-keeps IsShut IsShut-kept e x.bridge k) h
  perform-IsShut (Event.sends now wr) x h =
      worker_keeps x (send_command now wr) (λ k. send_command-IsShut now wr x.bridge k) h
  perform-IsShut (Event.asks_shutdown now) x h = request_shutdown-IsShut now x.bridge h
  perform-IsShut Event.ends_shutdown x h = finish_shutdown-IsShut x.bridge h

  -- Once the ready record has come and the state is another than `Ready` - the ledger is full, or
  -- the client failed or was shut down - no run of calls and steps makes it `Ready` again, and none
  -- ends where a submission is admitted, whatever state its caller read before the lock.
  pub run-IsShut :
      (es : List Event) (x : System)
      → IsShut x.bridge
      → IsShut (run w p es x).bridge
        × ((early : Status) (q : Submission)
            → (try_submit early q (run w p es x).bridge.impl).1 ≢ admitted)
  unfolding run
  run-IsShut [] x h = (h, λ early q. refused early q x.bridge.impl h.1)
  run-IsShut (e ∷ es) x h = run-IsShut es (perform w p e x).0 (perform-IsShut e x h)
