-- ===== src/Bridge/Runs/Steps.antt =====
-- Every step keeps the client sound, and so does every run of steps.
use twow_repo.Base.{
  ℕ, Bool, true, false, List, [], ◌∷◌, ◌≡◌, refl, sym, arith, if-keeps, subst, length, All-append,
}
use twow_repo.Bridge.Messages.Strict.{Parser}
use twow_repo.Bridge.State.{Delivery, observe_session, invalidate_session}
use twow_repo.Bridge.Runs.Admitted.{IsFresh}
use twow_repo.Bridge.Whispers.{World, take_deliveries}
use twow_repo.Bridge.Worker.{Bridge, with_impl, send_command, read_pipes, drain_lines, check_ends}
use twow_repo.Bridge.Runs.{
  System, Event, start_system, perform, run, deliver_held, failure, on_worker,
}
use twow_repo.Bridge.Runs.Invariant.{IsSettled, IsSound}
use twow_repo.Bridge.Runs.Statuses.{is_failure}
use twow_repo.Bridge.Runs.Kept.{read_pipes-keeps, drain_lines-keeps, check_ends-keeps}
use twow_repo.Bridge.Runs.Worker.{Sound, same-IsSound, Sound-kept}
use twow_repo.Bridge.Runs.Calls.{
  send_command-IsSound, deliver-IsSound, submits-IsSound, begin_start-IsSound, spawn_worker-IsSound,
  request_shutdown-IsSound, finish_shutdown-IsSound, start_fails-IsSound,
}

pub failure_lem : (child : Bool) → is_failure (failure child) ≡ true
unfolding failure
failure_lem true = refl
failure_lem false = refl

-- A step of the worker keeps the client sound if it does so while the loop runs.
worker_keeps :
    (x : System) (f : Bridge → Bridge)
    → (IsSound x.bridge x.held → IsSound (f x.bridge) x.held)
    → IsSound x.bridge x.held
    → IsSound (on_worker x f).bridge (on_worker x f).held
worker_keeps x f k h =
    if-keeps (λ y. IsSound y.bridge y.held) x.bridge.running (record x { bridge = f x.bridge }) x
      (λ _. k h) (λ _. h)

-- What a step needs: a submission draws an id that is not in use.
abbrev pub Fresh : Event → System → Type 0
Fresh (Event.submits early q) x = IsFresh x.held q x.bridge.impl
Fresh _ x = Unit {0}

module _ (w : World) (p : Parser) where
  abbrev Stays : Event → System → Type 0
  Stays e x = IsSound (perform w p e x).0.bridge (perform w p e x).0.held

  taken-IsSound : (x : System) → IsSound x.bridge x.held → Stays Event.world_takes x
  unfolding perform take_deliveries
  taken-IsSound x h =
      let k = h.tables in
      record {
        tables = record {
          ascending = k.ascending;
          few = k.few;
          few_deliveries = omega arith;
          settled = tt;
          settled_held =
              All-append (IsSettled x.bridge.impl.routes) x.held x.bridge.impl.deliveries
                k.settled_held k.settled;
        };
        up = h.up;
        awaited = h.awaited;
      }

  delivered-IsSound :
      (now : ℕ) (ds : List Delivery) (x : System)
      → IsSound x.bridge ds
      → x.held ≡ ds
      → IsSound (deliver_held w now ds x).0.bridge (deliver_held w now ds x).0.held
  unfolding deliver_held
  delivered-IsSound now [] x h e = subst (λ t. IsSound x.bridge t) (sym e) h
  delivered-IsSound now (d ∷ ds) x h e = deliver-IsSound ds w now d x.bridge h

  pub perform-IsSound : (e : Event) (x : System) → Fresh e x → IsSound x.bridge x.held → Stays e x
  unfolding perform
  perform-IsSound Event.start x f h = begin_start-IsSound x.held x.bridge h
  perform-IsSound (Event.spawns deadline) x f h = spawn_worker-IsSound x.held deadline x.bridge h
  perform-IsSound (Event.start_fails child reason) x f h =
      start_fails-IsSound x.held (failure child) reason x.bridge (failure_lem child) h
  perform-IsSound (Event.observe guid account login name) x f h =
      unfold observe_session in
      same-IsSound x.held x.bridge
        (with_impl x.bridge (observe_session guid account login name x.bridge.impl)) refl refl refl
        refl h.up h
  perform-IsSound (Event.invalidate guid) x f h =
      unfold invalidate_session in
      same-IsSound x.held x.bridge (with_impl x.bridge (invalidate_session guid x.bridge.impl)) refl
        refl refl refl h.up h
  perform-IsSound (Event.submits early q) x f h = submits-IsSound x.held early q x.bridge f h
  perform-IsSound Event.world_takes x f h = taken-IsSound x h
  perform-IsSound (Event.world_delivers now) x f h = delivered-IsSound now x.held x h refl
  perform-IsSound (Event.reads out err) x f h =
      worker_keeps x (read_pipes out err)
        (λ k. read_pipes-keeps (Sound x.held) (Sound-kept x.held) out err x.bridge k) h
  perform-IsSound (Event.drains now) x f h =
      worker_keeps x (λ b. drain_lines (length b.stdout_buffer) p now b)
        (λ k.
          drain_lines-keeps (Sound x.held) (Sound-kept x.held) (length x.bridge.stdout_buffer) p now
            x.bridge k)
        h
  perform-IsSound (Event.checks e) x f h =
      worker_keeps x (check_ends e)
        (λ k. check_ends-keeps (Sound x.held) (Sound-kept x.held) e x.bridge k) h
  perform-IsSound (Event.sends now wr) x f h =
      worker_keeps x (send_command now wr) (λ k. send_command-IsSound x.held now wr x.bridge k) h
  perform-IsSound (Event.asks_shutdown now) x f h = request_shutdown-IsSound x.held now x.bridge h
  perform-IsSound Event.ends_shutdown x f h = finish_shutdown-IsSound x.held x.bridge h

  -- The submissions of a run all draw ids that are not in use.
  abbrev pub AllFresh : List Event → System → Type 0
  AllFresh [] x = Unit {0}
  AllFresh (e ∷ es) x = Fresh e x × AllFresh es (perform w p e x).0

  pub run-IsSound :
      (es : List Event) (x : System)
      → AllFresh es x
      → IsSound x.bridge x.held
      → IsSound (run w p es x).bridge (run w p es x).held
  unfolding run
  run-IsSound [] x f h = h
  run-IsSound (e ∷ es) x f h = run-IsSound es (perform w p e x).0 f.1 (perform-IsSound e x f.0 h)

pub start_system-IsSound : IsSound start_system.bridge start_system.held
start_system-IsSound = record {
  tables = record {
    ascending = tt;
    few = omega arith;
    few_deliveries = omega arith;
    settled = tt;
    settled_held = tt;
  };
  up = λ o. absurd (cc);
  awaited = tt;
}
