-- ===== src/Bridge/Worker.antt =====
-- The worker of the bridge: the lines that it reads, the loop of WorkerMain, and Shutdown. A
-- round of the loop is a sequence of steps, between which other threads may take the lock; what
-- the pipes and the process give a step is its argument.
pub mod Lines
use twow_repo.Base.{
  ℕ, zero, suc, ◌+◌, ◌-◌, Bool, true, false, not, ◌&&◌, ◌||◌, List, [], ◌∷◌, ◌++◌, Option, none,
  some, leb, ltb, ◌==◌, if◌then◌else◌, Bytes, codes, is_empty, length, drop, any,
}
use twow_repo.Wire.Json.{Json}
use twow_repo.Bridge.Messages.Strict.{Parser, strict_json}
use twow_repo.Bridge.Messages.Dispositions.{
  CommandKind, nothing, is_fatal_top_level_error, validate_ready,
}
use twow_repo.Bridge.State.{
  Status, disabled, starting, ready, protocol_failed, child_failed, shutting_down, stopped, Impl,
  fail,
}
use twow_repo.Bridge.Commands.{Command, choose_command}
use twow_repo.Bridge.Responses.{apply_response}

abbrev pub stdout_ndjson_line_cap_bytes : ℕ
stdout_ndjson_line_cap_bytes = 16384

abbrev pub stderr_diagnostic_cap_bytes : ℕ
stderr_diagnostic_cap_bytes = 65536

-- The members, and the local variables of the worker; `running` is false once its loop is left.
pub record Bridge : Type 0 where
  pub impl : Impl
  pub stdout_buffer : Bytes
  pub pending_kind : CommandKind
  pub pending_request : Bytes
  pub is_up : Bool
  pub running : Bool

abbrev pub with_impl : Bridge → Impl → Bridge
with_impl b s = record b { impl = s }

-- `Fail`, and out of the loop.
unfoldable pub fail_worker : Status → Bytes → Bridge → Bridge
fail_worker state reason b = record b { impl = fail state reason b.impl; running = false }

abbrev pub leave : Bridge → Bridge
leave b = record b { running = false }

-- `m_stderrRing`: the last bytes, up to the cap.
unfoldable pub ring_append : Bytes → Bytes → Bytes
ring_append ring bytes =
    let all = ring ++ bytes in
    if ltb stderr_diagnostic_cap_bytes (length all)
    then drop (length all - stderr_diagnostic_cap_bytes) all
    else all

abbrev pub newline : ℕ
newline = 0x0a

unfoldable pub push_front : ℕ → Option (Bytes × Bytes) → Option (Bytes × Bytes)
push_front c none = none
push_front c (some (line, rest)) = some (c ∷ line, rest)

-- `substr(0, newline)` and what `erase` leaves; `none` where no newline is found.
unfoldable pub split_line : Bytes → Option (Bytes × Bytes)
unfolding push_front
split_line [] = none
split_line (c ∷ cs) =
    let later = push_front c (split_line cs) in if c == newline then some ([], cs) else later

-- A carriage return at the end goes.
unfoldable pub without_cr : Bytes → Bytes
without_cr [] = []
without_cr (c ∷ []) = if c == 0x0d then [] else c ∷ []
without_cr (c ∷ d ∷ cs) = c ∷ without_cr (d ∷ cs)

-- The head of a round: what the two pipes gave.
unfoldable pub read_pipes : Bytes → Bytes → Bridge → Bridge
unfolding ring_append
read_pipes stdout_bytes stderr_bytes b =
    let s = b.impl in
    let buffer = b.stdout_buffer ++ stdout_bytes in
    let read = record b {
      impl = record s { stderr_ring = ring_append s.stderr_ring stderr_bytes };
      stdout_buffer = buffer;
    } in
    if ltb stdout_ndjson_line_cap_bytes (length buffer) && not (any (λ c. c == newline) buffer)
    then fail_worker protocol_failed (codes "stdout_line_too_large") read
    else read

unfoldable pub is_nothing : CommandKind → Bool
is_nothing nothing = true
is_nothing _ = false

unfoldable pub applied : Option Impl → Bridge → Bridge
applied none b = fail_worker protocol_failed (codes "response_contract_mismatch") b
applied (some s) b = record b { impl = s; pending_kind = nothing; pending_request = [] }

-- A record of the process: the first says that it is ready, each other one answers a command.
unfoldable pub handle_record : ℕ → Json → Bridge → Bridge
unfolding applied is_nothing
handle_record now value b =
    let s = b.impl in
    if not b.is_up
    then (if is_fatal_top_level_error value
        then fail_worker child_failed (codes "fatal_startup_error") b
        else if not (validate_ready value)
        then fail_worker protocol_failed (codes "ready_mismatch") b
        else record b { impl = record s { status = ready }; is_up = true })
    else if is_nothing b.pending_kind
    then fail_worker protocol_failed (codes "response_contract_mismatch") b
    else applied (apply_response now b.pending_kind b.pending_request value b.impl) b

unfoldable pub handle_line : ℕ → Option Json → Bridge → Bridge
handle_line now none b = fail_worker protocol_failed (codes "invalid_ndjson") b
handle_line now (some value) b = handle_record now value b

-- The inner loop, on fuel: one round for each newline of the buffer.
unfoldable pub drain_lines : ℕ → Parser → ℕ → Bridge → Bridge
unfolding split_line without_cr handle_line
drain_lines zero p now b = b
drain_lines (suc fuel) p now b = if not b.running then b else elim (split_line b.stdout_buffer) [
  | none ↦ b
  | some (line, rest) ↦
      drain_lines fuel p now
        (handle_line now (strict_json p (without_cr line)) (record b { stdout_buffer = rest }))
]

-- What the tests behind the lines read: the clocks, the end of the pipe, the process.
pub record Ends : Type 0 where
  pub ready_time : ℕ
  pub stdout_eof : Bool
  pub exited : Bool
  pub force_stop : Bool
  pub shutdown_time : ℕ

unfoldable pub shutdown_was_acknowledged : Impl → Bool
shutdown_was_acknowledged s = s.shutdown_requested && s.shutdown_acknowledged

unfoldable pub shutdown_deadline_reached : ℕ → Impl → Bool
shutdown_deadline_reached now s = s.shutdown_requested && leb s.shutdown_deadline now

unfoldable pub ended : Bytes → Bridge → Bridge
ended reason b =
    if shutdown_was_acknowledged b.impl then leave b else fail_worker child_failed reason b

unfoldable pub check_ends : Ends → Bridge → Bridge
unfolding ended
check_ends e b =
    if not b.is_up && leb b.impl.ready_deadline e.ready_time
    then fail_worker protocol_failed (codes "ready_timeout") b
    else if e.stdout_eof
    then ended (codes "stdout_eof") b
    else if e.exited
    then ended (codes "child_exit_or_abort") b
    else if e.force_stop
    then leave b
    else if shutdown_deadline_reached e.shutdown_time b.impl
    then leave b
    else b

-- What the write of a command gives, as it is seen behind it.
pub data WriteResult : Type 0 where
  complete cancelled write_failed : WriteResult

pub record Writing : Type 0 where
  pub too_long : Bool
  pub result : WriteResult
  pub force_stopped : Bool
  pub after : ℕ

unfoldable pub wrote : WriteResult → Writing → Bridge → Bridge
wrote complete w b = b
wrote cancelled w b = leave b
wrote write_failed w b =
    if not w.force_stopped && not (shutdown_deadline_reached w.after b.impl)
    then fail_worker child_failed (codes "stdin_write_failed") b
    else leave b

-- A command, once it is chosen: `wire.size()` past the cap counts as a failed write.
unfoldable pub sent : Writing → Option Command → Bridge → Bridge
unfolding wrote
sent w none b = b
sent w (some c) b =
    wrote (if w.too_long then write_failed else w.result) w
      (record b { pending_kind = c.kind; pending_request = c.id })

unfoldable pub send_command : ℕ → Writing → Bridge → Bridge
unfolding sent is_nothing
send_command now w b =
    let chosen = choose_command now b.impl in
    if b.is_up && is_nothing b.pending_kind then sent w chosen.1 (with_impl b chosen.0) else b

-- `Shutdown` up to the wait for the worker, and behind it.
abbrev pub is_over : Status → Bool
is_over disabled = true
is_over stopped = true
is_over _ = false

unfoldable pub request_shutdown : ℕ → Impl → Impl
request_shutdown now s = if is_over s.status then s else record s {
  status = shutting_down;
  shutdown_requested = true;
  shutdown_deadline = now + s.shutdown_timeout;
}

-- The worker is joined before the state is stored; a call that went back at once gets nowhere.
unfoldable pub finish_shutdown : Bridge → Bridge
finish_shutdown b =
    let s = b.impl in
    if s.shutdown_requested
    then record b { impl = record s { status = stopped }; running = false }
    else b

abbrev pub is_disabled : Status → Bool
is_disabled disabled = true
is_disabled _ = false

-- The head of `Start`: once only, from `Disabled`.
unfoldable pub begin_start : Impl → Impl
begin_start s = if is_disabled s.status then record s { status = starting } else s

-- The end of `StartProcess`, where the process runs: its deadline, and the worker, whatever the
-- state has become since `Start`. It comes once, so that the worker's variables are still as they
-- begin.
unfoldable pub spawn_worker : ℕ → Bridge → Bridge
spawn_worker ready_deadline b =
    let s = b.impl in
    record b { impl = record s { ready_deadline = ready_deadline }; running = true }
