-- ===== src/Bridge/Runs/Lifecycle/Refined.antt =====
-- Every step moves each request by turns of its automaton.
use twow_repo.Base.{
  ℕ, true, List, [], ◌∷◌, Option, ◌≡◌, refl, sym, subst, inl, inr, arith, if-keeps, Bytes, length,
}
use twow_repo.Bridge.Messages.Strict.{Parser}
use twow_repo.Bridge.State.{
  Status, Phase, Routes, Delivery, Impl, fail, observe_session, invalidate_session, retire_route,
  erase_route,
}
use twow_repo.Bridge.Admission.{Submission, try_submit, new_route}
use twow_repo.Bridge.Whispers.{World, deliver, take_deliveries}
use twow_repo.Bridge.Worker.{
  Bridge, read_pipes, drain_lines, check_ends, send_command, begin_start, spawn_worker,
  request_shutdown, finish_shutdown,
}
use twow_repo.Bridge.Runs.{System, Event, perform, deliver_held, on_worker}
use twow_repo.Bridge.Runs.Invariant.{IsSound, phase_at, erase-Shrinks}
use twow_repo.Bridge.Runs.Admitted.{IsFresh, try_submit-Admits}
use twow_repo.Bridge.Runs.Kept.{read_pipes-keeps, drain_lines-keeps, check_ends-keeps}
use twow_repo.Bridge.Runs.Steps.{Fresh, AllFresh, perform-IsSound}
use twow_repo.Bridge.Runs.Lifecycle.{OneTurn, is_path}
use twow_repo.Bridge.Runs.Lifecycle.Turns.{Shrinks-OneTurn, same-OneTurn, emplace-OneTurn}
use twow_repo.Bridge.Runs.Lifecycle.Records.{Moved, Moved-kept, Turned-OneTurn}
use twow_repo.Bridge.Runs.Lifecycle.Sending.{send_command-OneTurn}

submits-OneTurn :
    (early : Status) (q : Submission) (held : List Delivery) (s : Impl)
    → IsFresh held q s
    → OneTurn s.routes (try_submit early q s).0.routes
unfolding new_route
submits-OneTurn early q held s f = elim (try_submit-Admits early q s) [
  | inl e ↦ subst (λ t. OneTurn s.routes t.routes) (sym e) (same-OneTurn s.routes)
  | inr (bot, target, l, r, e) ↦
      subst (λ t. OneTurn s.routes t.routes) (sym e)
        (emplace-OneTurn (new_route q bot target s.request_ttl) s f.no_route refl)
]

worker_turns :
    (x : System) (f : Bridge → Bridge)
    → OneTurn x.bridge.impl.routes (f x.bridge).impl.routes
    → OneTurn x.bridge.impl.routes (on_worker x f).bridge.impl.routes
worker_turns x f m =
    if-keeps (λ y. OneTurn x.bridge.impl.routes y.bridge.impl.routes) x.bridge.running
      (record x { bridge = f x.bridge }) x (λ _. m) (λ _. same-OneTurn x.bridge.impl.routes)

same_routes : (rs rs' : Routes) → rs' ≡ rs → OneTurn rs rs'
same_routes rs rs' e = subst (OneTurn rs) (sym e) (same-OneTurn rs)

-- A step of the worker that keeps what each of its parts keeps.
kept_turns :
    (x : System) (f : Bridge → Bridge)
    → IsSound x.bridge x.held
    → (Moved x.bridge.impl.routes x.held x.bridge → Moved x.bridge.impl.routes x.held (f x.bridge))
    → OneTurn x.bridge.impl.routes (on_worker x f).bridge.impl.routes
kept_turns x f h k =
    worker_turns x f (Turned-OneTurn x.bridge.impl.routes x.held (f x.bridge) (k (h, inl refl)).1)

begin_start-routes : (s : Impl) → (begin_start s).routes ≡ s.routes
unfolding begin_start
begin_start-routes s = ground arith

spawn_worker-routes :
    (deadline : ℕ) (b : Bridge) → (spawn_worker deadline b).impl.routes ≡ b.impl.routes
unfolding spawn_worker
spawn_worker-routes deadline b = ground arith

request_shutdown-routes : (now : ℕ) (s : Impl) → (request_shutdown now s).routes ≡ s.routes
unfolding request_shutdown
request_shutdown-routes now s = ground arith

finish_shutdown-routes : (b : Bridge) → (finish_shutdown b).impl.routes ≡ b.impl.routes
unfolding finish_shutdown
finish_shutdown-routes b = ground arith

module _ (w : World) (p : Parser) where
  delivered-OneTurn :
      (now : ℕ) (ds : List Delivery) (x : System)
      → OneTurn x.bridge.impl.routes (deliver_held w now ds x).0.bridge.impl.routes
  unfolding deliver_held deliver retire_route
  delivered-OneTurn now [] x = same-OneTurn x.bridge.impl.routes
  delivered-OneTurn now (d ∷ ds) x =
      let rs = x.bridge.impl.routes in
      Shrinks-OneTurn rs (erase_route d.route.request_id rs) (erase-Shrinks d.route.request_id rs)

  perform-OneTurn :
      (e : Event) (x : System)
      → Fresh e x
      → IsSound x.bridge x.held
      → OneTurn x.bridge.impl.routes (perform w p e x).0.bridge.impl.routes
  unfolding perform fail
  perform-OneTurn Event.start x f h =
      same_routes x.bridge.impl.routes (begin_start x.bridge.impl).routes
        (begin_start-routes x.bridge.impl)
  perform-OneTurn (Event.spawns deadline) x f h =
      same_routes x.bridge.impl.routes (spawn_worker deadline x.bridge).impl.routes
        (spawn_worker-routes deadline x.bridge)
  perform-OneTurn (Event.start_fails child reason) x f h = same-OneTurn x.bridge.impl.routes
  perform-OneTurn (Event.observe guid account login name) x f h =
      unfold observe_session in same-OneTurn x.bridge.impl.routes
  perform-OneTurn (Event.invalidate guid) x f h =
      unfold invalidate_session in same-OneTurn x.bridge.impl.routes
  perform-OneTurn (Event.submits early q) x f h = submits-OneTurn early q x.held x.bridge.impl f
  perform-OneTurn Event.world_takes x f h =
      unfold take_deliveries in same-OneTurn x.bridge.impl.routes
  perform-OneTurn (Event.world_delivers now) x f h = delivered-OneTurn now x.held x
  perform-OneTurn (Event.reads out err) x f h = kept_turns x (read_pipes out err) h (
      read_pipes-keeps (Moved x.bridge.impl.routes x.held) (Moved-kept x.bridge.impl.routes x.held)
        out err x.bridge)
  perform-OneTurn (Event.drains now) x f h =
      kept_turns x (λ b. drain_lines (length b.stdout_buffer) p now b) h
        (drain_lines-keeps (Moved x.bridge.impl.routes x.held)
          (Moved-kept x.bridge.impl.routes x.held) (length x.bridge.stdout_buffer) p now x.bridge)
  perform-OneTurn (Event.checks e) x f h = kept_turns x (check_ends e) h (
      check_ends-keeps (Moved x.bridge.impl.routes x.held) (Moved-kept x.bridge.impl.routes x.held)
        e x.bridge)
  perform-OneTurn (Event.sends now wr) x f h =
      worker_turns x (send_command now wr) (send_command-OneTurn now wr x.bridge h.tables.ascending)
  perform-OneTurn (Event.asks_shutdown now) x f h =
      same_routes x.bridge.impl.routes (request_shutdown now x.bridge.impl).routes
        (request_shutdown-routes now x.bridge.impl)
  perform-OneTurn Event.ends_shutdown x f h =
      same_routes x.bridge.impl.routes (finish_shutdown x.bridge).impl.routes
        (finish_shutdown-routes x.bridge)

  -- Where a request stands after each step.
  abbrev pub phases : Bytes → List Event → System → List (Option Phase)
  phases id [] x = []
  phases id (e ∷ es) x =
      let y = (perform w p e x).0 in phase_at id y.bridge.impl.routes ∷ phases id es y

  -- The table, seen as the phase of each request, refines the automaton: over any run from a sound
  -- client in which each submission draws an id that is not in use, the places of a request after
  -- each step are a path of the automaton, which takes one turn a step at most. So a request enters
  -- only to be submitted, is consumed only once it is terminal, and neither a request that is
  -- accepted is submitted again nor a delivery taken back but by leaving the table.
  pub run_refines :
      (es : List Event) (x : System)
      → AllFresh w p es x
      → IsSound x.bridge x.held
      → (id : Bytes) → is_path (phase_at id x.bridge.impl.routes) (phases id es x) ≡ true
  unfolding is_path
  run_refines [] x f h id = refl
  run_refines (e ∷ es) x f h id =
      let y = (perform w p e x).0 in
      rw (perform-OneTurn e x f.0 h id) (run_refines es y f.1 (perform-IsSound w p e x f.0 h) id)
