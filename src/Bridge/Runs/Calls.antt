-- ===== src/Bridge/Runs/Calls.antt =====
-- The calls from outside and the sending of a command keep the invariant.
use twow_repo.Base.{
  ℕ, ◌+◌, Bool, true, false, ◌&&◌, List, ◌∷◌, Option, none, some, ◌≡◌, ◌≢◌, refl, sym, ◌∙◌, arith,
  inl, inr, if◌then◌else◌, if-keeps, subst, Bytes, bytes_eq_sym,
}
use twow_repo.Bridge.Messages.Dispositions.{
  CommandKind, nothing, submit, status, consume, metrics, shutdown,
}
use twow_repo.Bridge.State.{
  Status, stopped, starting, shutting_down, Delivery, fail, Phase, pending_submit, accepted,
  consuming, delivery_pending, retire_route, erase_route,
}
use twow_repo.Bridge.Runs.Admitted.{emplace-Kept, IsFresh, try_submit-Admits, Awaits-emplace}
use twow_repo.Bridge.Admission.{Submission, try_submit, new_route}
use twow_repo.Bridge.Commands.{Command, choose_command}
use twow_repo.Bridge.Whispers.{World, deliver}
use twow_repo.Bridge.Worker.{
  Bridge, with_impl, Writing, write_failed, sent, send_command, is_nothing, is_disabled, is_over,
  request_shutdown, finish_shutdown, begin_start, spawn_worker,
}
use twow_repo.Bridge.Runs.Invariant.{
  Kept, is_open, phase_at, Awaits, Awaits-Busy, IsSound, Busy-other, phase_at-erase,
}
use twow_repo.Bridge.Runs.Applied.{retire-Kept}
use twow_repo.Bridge.Runs.Statuses.{fail-closes, is_failure}
use twow_repo.Bridge.Runs.Kept.{wrote-keeps}
use twow_repo.Bridge.Runs.Worker.{Sound, same-IsSound, Sound-kept}
use twow_repo.Bridge.Runs.Chosen.{AwaitsOf, choose_command-Good}

module _ (held : List Delivery) where
  sent-IsSound :
      (w : Writing) (o : Option Command) (b : Bridge)
      → b.pending_kind ≡ nothing
      → Kept b.impl held
      → (is_open b.impl ≡ true → b.is_up ≡ true)
      → AwaitsOf o b.impl.routes
      → IsSound (sent w o b) held
  unfolding sent
  sent-IsSound w none b e k up a = record {
    tables = k;
    up = up;
    awaited = subst (λ t. Awaits t b.pending_request b.impl.routes) (sym e) tt;
  }
  sent-IsSound w (some c) b e k up a =
      wrote-keeps (Sound held) (Sound-kept held) (if w.too_long then write_failed else w.result) w
        (record b { pending_kind = c.kind; pending_request = c.id })
        (record { tables = k; up = up; awaited = a })

  nothing_kind : (k : CommandKind) → is_nothing k ≡ true → k ≡ nothing
  unfolding is_nothing
  nothing_kind k h = ground arith

  up_and : (a c : Bool) → (a && c) ≡ true → (a ≡ true) × (c ≡ true)
  up_and a c h = ground arith

  pub send_command-IsSound :
      (now : ℕ) (w : Writing) (b : Bridge) → IsSound b held → IsSound (send_command now w b) held
  unfolding send_command
  send_command-IsSound now w b h =
      let g = choose_command-Good held now b.impl h.tables in
      let chosen = choose_command now b.impl in
      if-keeps (λ c. IsSound c held) (b.is_up && is_nothing b.pending_kind)
        (sent w chosen.1 (with_impl b chosen.0)) b
        (λ e.
          sent-IsSound w chosen.1 (with_impl b chosen.0)
            (nothing_kind b.pending_kind (up_and b.is_up (is_nothing b.pending_kind) e).1) g.0
            (λ _. (up_and b.is_up (is_nothing b.pending_kind) e).0) g.1)
        (λ _. h)

  pub deliver-IsSound :
      (w : World) (now : ℕ) (d : Delivery) (b : Bridge)
      → IsSound b (d ∷ held)
      → IsSound (with_impl b (deliver w now d b.impl).0) held
  unfolding deliver retire_route
  deliver-IsSound w now d b h = record {
    tables = dropped (retire-Kept (d ∷ held) d.route.request_id b.impl h.tables);
    up = h.up;
    awaited = retired b.pending_kind b.pending_request h.awaited;
  }
    where
      dropped :
          Kept (retire_route d.route.request_id b.impl) (d ∷ held)
          → Kept (retire_route d.route.request_id b.impl) held
      dropped k = record {
        ascending = k.ascending;
        few = k.few;
        few_deliveries = k.few_deliveries;
        settled = k.settled;
        settled_held = k.settled_held.1;
      }

      elsewhere :
          (id : Bytes) (phase : Phase)
          → phase ≢ delivery_pending
          → phase_at id b.impl.routes ≡ some phase
          → phase_at id (erase_route d.route.request_id b.impl.routes) ≡ phase_at id b.impl.routes
      elsewhere id phase n a =
          phase_at-erase id d.route.request_id b.impl.routes
          ∙ rw
              (
                bytes_eq_sym d.route.request_id id,
                Busy-other b.impl.routes id d (Awaits-Busy nothing id b.impl.routes phase a n)
                    h.tables.settled_held.0,
              )
              refl

      retired :
          (kind : CommandKind) (id : Bytes)
          → Awaits kind id b.impl.routes
          → Awaits kind id (erase_route d.route.request_id b.impl.routes)
      retired submit id a = elsewhere id pending_submit (λ e. cc) a ∙ a
      retired status id a = elsewhere id accepted (λ e. cc) a ∙ a
      retired consume id a = elsewhere id consuming (λ e. cc) a ∙ a
      retired metrics id a = a
      retired shutdown id a = tt
      retired nothing id a = tt

  pub submits-IsSound :
      (early : Status) (q : Submission) (b : Bridge)
      → IsFresh held q b.impl
      → IsSound b held
      → IsSound (with_impl b (try_submit early q b.impl).0) held
  unfolding new_route
  submits-IsSound early q b f h = elim (try_submit-Admits early q b.impl) [
    | inl e ↦ subst (λ t. IsSound (with_impl b t) held) (sym e) h
    | inr (bot, target, l, r, e) ↦
        let route = new_route q bot target b.impl.request_ttl in
        subst (λ t. IsSound (with_impl b t) held) (sym e)
          (record {
            tables = emplace-Kept held route b.impl l f.no_route f.no_delivery f.not_held h.tables;
            up = h.up;
            awaited =
                Awaits-emplace b.pending_kind b.pending_request route b.impl f.no_route h.awaited;
          })
  ]

  pub begin_start-IsSound :
      (b : Bridge) → IsSound b held → IsSound (with_impl b (begin_start b.impl)) held
  unfolding begin_start
  begin_start-IsSound b h =
      let s = b.impl in
      let begun = record s { status = starting } in
      if-keeps (λ t. IsSound (with_impl b t) held) (is_disabled s.status) begun s
        (λ _. same-IsSound held b (with_impl b begun) refl refl refl refl (λ o. absurd (cc)) h)
        (λ _. h)

  pub spawn_worker-IsSound :
      (deadline : ℕ) (b : Bridge) → IsSound b held → IsSound (spawn_worker deadline b) held
  unfolding spawn_worker
  spawn_worker-IsSound deadline b h =
      let s = b.impl in
      let spawned = record b { impl = record s { ready_deadline = deadline }; running = true } in
      same-IsSound held b spawned refl refl refl refl h.up h

  pub request_shutdown-IsSound :
      (now : ℕ) (b : Bridge)
      → IsSound b held
      → IsSound (with_impl b (request_shutdown now b.impl)) held
  unfolding request_shutdown
  request_shutdown-IsSound now b h =
      let s = b.impl in
      let asked = record s {
        status = shutting_down;
        shutdown_requested = true;
        shutdown_deadline = now + s.shutdown_timeout;
      } in
      if-keeps (λ t. IsSound (with_impl b t) held) (is_over s.status) s asked (λ _. h)
        (λ _. same-IsSound held b (with_impl b asked) refl refl refl refl (λ o. absurd (cc)) h)

  pub finish_shutdown-IsSound : (b : Bridge) → IsSound b held → IsSound (finish_shutdown b) held
  unfolding finish_shutdown
  finish_shutdown-IsSound b h =
      let s = b.impl in
      let done = record b { impl = record s { status = stopped }; running = false } in
      if-keeps (λ c. IsSound c held) s.shutdown_requested done b
        (λ _. same-IsSound held b done refl refl refl refl (λ o. absurd (cc)) h) (λ _. h)

  pub start_fails-IsSound :
      (state : Status) (reason : Bytes) (b : Bridge)
      → is_failure state ≡ true
      → IsSound b held
      → IsSound (with_impl b (fail state reason b.impl)) held
  unfolding fail
  start_fails-IsSound state reason b c h =
      same-IsSound held b (with_impl b (fail state reason b.impl)) refl refl refl refl
        (λ o. let shut = fail-closes state reason b.impl c in absurd (cc)) h
