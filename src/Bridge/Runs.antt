-- ===== src/Bridge/Runs.antt =====
-- The whole client: the threads' critical sections and the worker's steps, in any order.
pub mod Invariant
pub mod Applied
pub mod Statuses
pub mod Kept
pub mod Worker
pub mod Chosen
pub mod Admitted
pub mod Calls
pub mod Steps
pub mod Bounds
pub mod Served
pub mod Latched
pub mod Lifecycle
use twow_repo.Base.{
  ℕ, suc, Bool, true, false, not, List, [], ◌∷◌, ◌++◌, Option, none, some, ◌≡◌, if◌then◌else◌,
  Bytes, bytes_eq, is_empty, length, All,
}
use twow_repo.Bridge.Messages.Strict.{Parser}
use twow_repo.Bridge.Messages.Dispositions.{nothing}
use twow_repo.Bridge.State.{
  Status, protocol_failed, child_failed, Route, Delivery, Impl, initial, fail, observe_session,
  invalidate_session, find_route,
}
use twow_repo.Bridge.Admission.{Submission, SubmitResult, try_submit}
use twow_repo.Bridge.Whispers.{World, Whisper, deliver, take_deliveries}
use twow_repo.Bridge.Worker.{
  Bridge, with_impl, read_pipes, drain_lines, Ends, check_ends, Writing, send_command,
  request_shutdown, finish_shutdown, begin_start, spawn_worker,
}

-- The client, and the deliveries that `UpdateWorld` has swapped out and not yet gone through.
pub record System : Type 0 where
  pub bridge : Bridge
  pub held : List Delivery

-- The calls from outside, the parts of `UpdateWorld` and of a round of the worker. Nothing keeps
-- `spawns` from coming twice, or without a start: the runs are more than the source has.
pub data Event : Type 0 where
  start : Event
  spawns : ℕ → Event
  start_fails : Bool → Bytes → Event
  observe : ℕ → ℕ → ℕ → Bytes → Event
  invalidate : ℕ → Event
  submits : Status → Submission → Event
  world_takes : Event
  world_delivers : ℕ → Event
  reads : Bytes → Bytes → Event
  drains : ℕ → Event
  checks : Ends → Event
  sends : ℕ → Writing → Event
  asks_shutdown : ℕ → Event
  ends_shutdown : Event

abbrev pub start_system : System
start_system = record {
  bridge = record {
    impl = initial;
    stdout_buffer = [];
    pending_kind = nothing;
    pending_request = [];
    is_up = false;
    running = false;
  };
  held = [];
}

abbrev pub on_impl : System → (Impl → Impl) → System
on_impl x f = record x { bridge = with_impl x.bridge (f x.bridge.impl) }

-- A step of the worker, while its loop runs.
abbrev pub on_worker : System → (Bridge → Bridge) → System
on_worker x f = if x.bridge.running then record x { bridge = f x.bridge } else x

unfoldable pub failure : Bool → Status
failure child = if child then child_failed else protocol_failed

unfoldable pub deliver_held : World → ℕ → List Delivery → System → System × List Whisper
deliver_held w now [] x = (x, [])
deliver_held w now (d ∷ ds) x =
    let r = deliver w now d x.bridge.impl in
    (record { bridge = with_impl x.bridge r.0; held = ds }, r.1)

module _ (w : World) (p : Parser) where
  -- The next state, and what is whispered.
  unfoldable pub perform : Event → System → System × List Whisper
  unfolding failure deliver_held
  perform start x = (on_impl x begin_start, [])
  perform (spawns deadline) x = (record x { bridge = spawn_worker deadline x.bridge }, [])
  perform (start_fails child reason) x = (on_impl x (fail (failure child) reason), [])
  perform (observe guid account login name) x =
      (on_impl x (observe_session guid account login name), [])
  perform (invalidate guid) x = (on_impl x (invalidate_session guid), [])
  perform (submits early q) x = (on_impl x (λ s. (try_submit early q s).0), [])
  perform world_takes x =
      let taken = take_deliveries x.bridge.impl in
      (record { bridge = with_impl x.bridge taken.0; held = x.held ++ taken.1 }, [])
  perform (world_delivers now) x = deliver_held w now x.held x
  perform (reads out err) x = (on_worker x (read_pipes out err), [])
  perform (drains now) x = (on_worker x (λ b. drain_lines (length b.stdout_buffer) p now b), [])
  perform (checks e) x = (on_worker x (check_ends e), [])
  perform (sends now wr) x = (on_worker x (send_command now wr), [])
  perform (asks_shutdown now) x = (on_impl x (request_shutdown now), [])
  perform ends_shutdown x = (record x { bridge = finish_shutdown x.bridge }, [])

  unfoldable pub run : List Event → System → System
  run [] x = x
  run (e ∷ es) x = run es (perform e x).0
