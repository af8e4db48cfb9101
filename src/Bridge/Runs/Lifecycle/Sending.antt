-- ===== src/Bridge/Runs/Lifecycle/Sending.antt =====
-- The choice of a command and its writing as a turn of the automaton.
use twow_repo.Base.{
  ℕ, Bool, true, not, ◌&&◌, List, [], Option, none, some, ◌≡◌, refl, sym, subst, ◌⊎◌, inl, inr,
  arith, if◌then◌else◌, if-keeps, Bytes, filter,
}
use twow_repo.Bridge.Messages.Dispositions.{
  CommandKind, nothing, submit, status, consume, metrics, shutdown,
}
use twow_repo.Bridge.State.{
  pending_submit, terminal, consuming, Routes, Impl, fail, is_ready, is_exhausted,
}
use twow_repo.Bridge.State.Tables.{Ascending, filter-Ascending}
use twow_repo.Bridge.Commands.{
  Command, choose_command, choose_among, picked, poll, pick, mark_picked, drop_expired, is_current,
  room_for, accepted_ids, shutdown_command,
}
use twow_repo.Bridge.Worker.{
  Bridge, with_impl, fail_worker, is_nothing, send_command, sent, wrote, Writing, WriteResult,
  complete, cancelled, write_failed,
}
use twow_repo.Bridge.Runs.Invariant.{phase_at, filter-Shrinks}
use twow_repo.Bridge.Runs.Chosen.{pick-lem}
use twow_repo.Bridge.Runs.Lifecycle.{OneTurn, Advances}
use twow_repo.Bridge.Runs.Lifecycle.Turns.{
  same-OneTurn, same-Advances, set_phase-Advances, Shrinks-Advances-OneTurn,
}

marked-Advances :
    (kind : CommandKind) (id : Bytes) (rs : Routes)
    → ((kind ≡ submit) × (phase_at id rs ≡ some pending_submit))
      ⊎ ((kind ≡ consume) × (phase_at id rs ≡ some terminal))
    → Advances rs (mark_picked kind id rs)
unfolding mark_picked
marked-Advances consume id rs (inl (e, p)) = absurd (cc)
marked-Advances consume id rs (inr (e, p)) = set_phase-Advances id consuming terminal rs p refl
marked-Advances submit id rs f = same-Advances rs
marked-Advances nothing id rs f = same-Advances rs
marked-Advances status id rs f = same-Advances rs
marked-Advances metrics id rs f = same-Advances rs
marked-Advances shutdown id rs f = same-Advances rs

poll-routes : (now : ℕ) (ids : List Bytes) (s : Impl) → (poll now ids s).0.routes ≡ s.routes
unfolding poll
poll-routes now ids s = ground arith

picked-Advances :
    (now : ℕ) (may room : Bool) (s : Impl) (o : Option Command)
    → pick may room s.routes ≡ o
    → Ascending s.routes
    → Advances s.routes (picked now o s).0.routes
unfolding picked
picked-Advances now may room s none e a =
    subst (Advances s.routes) (sym (poll-routes now (accepted_ids s.routes) s))
      (same-Advances s.routes)
picked-Advances now may room s (some c) e a =
    marked-Advances c.kind c.id s.routes (pick-lem may room s.routes c a e).0

choose_among-Advances :
    (now : ℕ) (s : Impl) → Ascending s.routes → Advances s.routes (choose_among now s).0.routes
unfolding choose_among
choose_among-Advances now s a =
    let asked : Impl × Option Command = (
      record s { shutdown_sent = true },
      some (record { kind = shutdown; id = []; body = shutdown_command }),
    ) in
    let may = is_ready s.status in
    let room = room_for s in
    let chosen = picked now (pick may room s.routes) s in
    let shut = not may && not (is_exhausted s.status) in
    let P : Impl × Option Command → Type 0 = λ r. Advances s.routes r.0.routes in
    if-keeps P (s.shutdown_requested && not s.shutdown_sent) asked
      (if shut then (s, none) else chosen) (λ _. same-Advances s.routes)
      (λ _.
        if-keeps P shut (s, none) chosen (λ _. same-Advances s.routes)
          (λ _. picked-Advances now may room s (pick may room s.routes) refl a))

choose_command-OneTurn :
    (now : ℕ) (s : Impl) → Ascending s.routes → OneTurn s.routes (choose_command now s).0.routes
unfolding choose_command drop_expired
choose_command-OneTurn now s a =
    let left = filter (is_current now) s.routes in
    let t = record s { routes = left } in
    Shrinks-Advances-OneTurn s.routes left (choose_among now t).0.routes
      (filter-Shrinks (is_current now) s.routes a)
      (choose_among-Advances now t (filter-Ascending (is_current now) s.routes a))

-- Writing a command leaves the table alone.
wrote-routes :
    (r : WriteResult) (w : Writing) (b : Bridge) → (wrote r w b).impl.routes ≡ b.impl.routes
unfolding wrote fail_worker fail
wrote-routes complete w b = refl
wrote-routes cancelled w b = refl
wrote-routes write_failed w b = ground arith

sent-routes :
    (w : Writing) (o : Option Command) (b : Bridge) → (sent w o b).impl.routes ≡ b.impl.routes
unfolding sent
sent-routes w none b = refl
sent-routes w (some c) b =
    wrote-routes (if w.too_long then write_failed else w.result) w
      (record b { pending_kind = c.kind; pending_request = c.id })

pub send_command-OneTurn :
    (now : ℕ) (w : Writing) (b : Bridge)
    → Ascending b.impl.routes
    → OneTurn b.impl.routes (send_command now w b).impl.routes
unfolding send_command
send_command-OneTurn now w b a =
    let rs = b.impl.routes in
    let chosen = choose_command now b.impl in
    if-keeps (λ c. OneTurn rs c.impl.routes) (b.is_up && is_nothing b.pending_kind)
      (sent w chosen.1 (with_impl b chosen.0)) b
      (λ _.
        subst (OneTurn rs) (sym (sent-routes w chosen.1 (with_impl b chosen.0)))
          (choose_command-OneTurn now b.impl a))
      (λ _. same-OneTurn rs)
