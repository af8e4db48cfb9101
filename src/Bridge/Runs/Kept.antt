-- ===== src/Bridge/Runs/Kept.antt =====
-- What the steps of the worker keep: it is enough to look at a failure, at the end of the loop, at
-- bytes that are read and at a record that is handled.
use twow_repo.Base.{
  ℕ, zero, suc, true, not, ◌&&◌, ◌++◌, Option, none, some, ◌≡◌, refl, sym, if◌then◌else◌, if-keeps,
  ltb, leb, ◌==◌, subst, Bytes, codes, any, length,
}
use twow_repo.Wire.Json.{Json}
use twow_repo.Bridge.Messages.Strict.{Parser, strict_json}
use twow_repo.Bridge.State.{Status, protocol_failed, child_failed}
use twow_repo.Bridge.Worker.{
  Bridge, fail_worker, leave, ended, read_pipes, ring_append, split_line, without_cr, handle_record,
  handle_line, drain_lines, Ends, check_ends, Writing, WriteResult, complete, cancelled,
  write_failed, wrote, shutdown_was_acknowledged, shutdown_deadline_reached,
  stdout_ndjson_line_cap_bytes, newline,
}
use twow_repo.Bridge.Worker.Lines.{next_line, drain_lines-zero, drain_lines-step}
use twow_repo.Bridge.Runs.Statuses.{is_failure}

abbrev pub with_bytes : Bridge → Bytes → Bytes → Bridge
with_bytes b buffer ring =
    let s = b.impl in record b { impl = record s { stderr_ring = ring }; stdout_buffer = buffer }

-- A property that those four keep.
pub record IsKept (P : Bridge → Type 0) : Type 0 where
  pub fails :
      (state : Status) (reason : Bytes) (b : Bridge)
      → is_failure state ≡ true
      → P b
      → P (fail_worker state reason b)
  pub leaves : (b : Bridge) → P b → P (leave b)
  pub reads : (b : Bridge) (buffer ring : Bytes) → P b → P (with_bytes b buffer ring)
  pub handles : (now : ℕ) (v : Json) (b : Bridge) → P b → P (handle_record now v b)

module _ (P : Bridge → Type 0) (kept : IsKept P) where
  pub read_pipes-keeps : (out err : Bytes) (b : Bridge) → P b → P (read_pipes out err b)
  unfolding read_pipes
  read_pipes-keeps out err b h =
      let s = b.impl in
      let buffer = b.stdout_buffer ++ out in
      let read = record b {
        impl = record s { stderr_ring = ring_append s.stderr_ring err };
        stdout_buffer = buffer;
      } in
      let sound = kept.reads b buffer (ring_append s.stderr_ring err) h in
      if-keeps P
        (ltb stdout_ndjson_line_cap_bytes (length buffer) && not (any (λ c. c == newline) buffer))
        (fail_worker protocol_failed (codes "stdout_line_too_large") read) read
        (λ _. kept.fails protocol_failed (codes "stdout_line_too_large") read refl sound)
        (λ _. sound)

  handle_line-keeps : (now : ℕ) (o : Option Json) (b : Bridge) → P b → P (handle_line now o b)
  unfolding handle_line
  handle_line-keeps now none b h = kept.fails protocol_failed (codes "invalid_ndjson") b refl h
  handle_line-keeps now (some v) b h = kept.handles now v b h

  next_line-keeps :
      (fuel : ℕ) (p : Parser) (now : ℕ) (b : Bridge) (o : Option (Bytes × Bytes))
      → ((c : Bridge) → P c → P (drain_lines fuel p now c))
      → P b
      → P (next_line fuel p now b o)
  unfolding next_line
  next_line-keeps fuel p now b none ih h = h
  next_line-keeps fuel p now b (some (line, rest)) ih h =
      let read = record b { stdout_buffer = rest } in
      ih (handle_line now (strict_json p (without_cr line)) read) (
        handle_line-keeps now (strict_json p (without_cr line)) read
          (kept.reads b rest b.impl.stderr_ring h))

  pub drain_lines-keeps :
      (fuel : ℕ) (p : Parser) (now : ℕ) (b : Bridge) → P b → P (drain_lines fuel p now b)
  drain_lines-keeps zero p now b h = subst P (sym (drain_lines-zero p now b)) h
  drain_lines-keeps (suc fuel) p now b h = subst P (sym (drain_lines-step fuel p now b)) (
      if-keeps P (not b.running) b (next_line fuel p now b (split_line b.stdout_buffer)) (λ _. h)
        (λ _.
          next_line-keeps fuel p now b (split_line b.stdout_buffer)
            (λ c. drain_lines-keeps fuel p now c) h))

  ended-keeps : (reason : Bytes) (b : Bridge) → P b → P (ended reason b)
  unfolding ended
  ended-keeps reason b h =
      if-keeps P (shutdown_was_acknowledged b.impl) (leave b) (fail_worker child_failed reason b)
        (λ _. kept.leaves b h) (λ _. kept.fails child_failed reason b refl h)

  pub check_ends-keeps : (e : Ends) (b : Bridge) → P b → P (check_ends e b)
  unfolding check_ends
  check_ends-keeps e b h =
      let last = if shutdown_deadline_reached e.shutdown_time b.impl then leave b else b in
      let forced = if e.force_stop then leave b else last in
      let exited = if e.exited then ended (codes "child_exit_or_abort") b else forced in
      let closed = if e.stdout_eof then ended (codes "stdout_eof") b else exited in
      if-keeps P (not b.is_up && leb b.impl.ready_deadline e.ready_time)
        (fail_worker protocol_failed (codes "ready_timeout") b) closed
        (λ _. kept.fails protocol_failed (codes "ready_timeout") b refl h)
        (λ _.
          if-keeps P e.stdout_eof (ended (codes "stdout_eof") b) exited
            (λ _. ended-keeps (codes "stdout_eof") b h)
            (λ _.
              if-keeps P e.exited (ended (codes "child_exit_or_abort") b) forced
                (λ _. ended-keeps (codes "child_exit_or_abort") b h)
                (λ _.
                  if-keeps P e.force_stop (leave b) last (λ _. kept.leaves b h)
                    (λ _.
                      if-keeps P (shutdown_deadline_reached e.shutdown_time b.impl) (leave b) b
                        (λ _. kept.leaves b h) (λ _. h)))))

  pub wrote-keeps : (r : WriteResult) (w : Writing) (b : Bridge) → P b → P (wrote r w b)
  unfolding wrote
  wrote-keeps complete w b h = h
  wrote-keeps cancelled w b h = kept.leaves b h
  wrote-keeps write_failed w b h =
      let blamed = fail_worker child_failed (codes "stdin_write_failed") b in
      if-keeps P (not w.force_stopped && not (shutdown_deadline_reached w.after b.impl)) blamed
        (leave b) (λ _. kept.fails child_failed (codes "stdin_write_failed") b refl h)
        (λ _. kept.leaves b h)
