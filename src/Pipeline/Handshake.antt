-- ===== src/Pipeline/Handshake.antt =====
-- `AttemptHandshake`, `ReportHandshake`, `MaybeRetryHandshake` and `Handshake`: whether the service
-- is admitted, and the size of the batches that it takes.
pub mod Admitted
use twow_repo.Base.{
  ℕ, Bool, true, false, not, List, [], ◌∷◌, ◌++◌, Option, none, some, if◌then◌else◌, Bytes, codes,
}
use twow_repo.Base.Int.{ℤ, pos, int_lt, to_unsigned}
use twow_repo.Wire.Vocabulary.{contract_major}
use twow_repo.Wire.Json.{Library, Result, ok, err}
use twow_repo.Wire.Types.{ContractInfo}
use twow_repo.Wire.Decode.{decode_contract_info, contract_major_supported}
use twow_repo.Pipeline.Clock.{add32, elapsed}
use twow_repo.Pipeline.State.{HandshakeExchange, World}

-- `HttpResult`, of which the status is not looked at here.
pub record HttpResult : Type 0 where
  pub is_ok : Bool
  pub body : Bytes
  pub error : Bytes

abbrev pub new_exchange : HandshakeExchange
new_exchange = record {
  done = false;
  is_ok = false;
  skew = false;
  version = [];
  max_batch = pos 0;
  error = [];
}

-- The part of `AttemptHandshake` after the reply is decoded.
unfoldable pub take_info : Result ContractInfo → HandshakeExchange → HandshakeExchange
take_info (err why) out = record out { error = codes "unusable JSON: " ++ why }
take_info (ok info) out =
    let heard : HandshakeExchange = record out {
      version = info.version;
      max_batch = info.max_batch;
    } in
    if not (contract_major_supported info (pos contract_major))
    then record heard { skew = true }
    else record heard { is_ok = true }

-- `AttemptHandshake`, with what `FetchContract` gives.
unfoldable pub attempt_handshake : Library → HttpResult → HandshakeExchange → HandshakeExchange
unfolding take_info
attempt_handshake lib result out =
    if not result.is_ok
    then record out { error = result.error }
    else take_info (decode_contract_info lib result.body) out

-- `ReportHandshake`, less its log lines.
unfoldable pub report_handshake : HandshakeExchange → World → World
report_handshake out w =
    if out.is_ok
    then record w {
      max_batch = if int_lt (pos 0) out.max_batch then to_unsigned 32 out.max_batch else 1;
      admitted = true;
    }
    else w

-- The worker of `MaybeRetryHandshake`; `none` is an exception that escaped the attempt.
unfoldable pub settle_attempt : Library → Option HttpResult → HandshakeExchange → HandshakeExchange
unfolding attempt_handshake
settle_attempt lib none out = record out { error = codes "handshake worker threw"; done = true }
settle_attempt lib (some result) out = record (attempt_handshake lib result out) { done = true }

unfoldable pub after_worker : Library → Option HttpResult → Option HandshakeExchange → World → World
unfolding settle_attempt
after_worker lib result none w = w
after_worker lib result (some x) w =
    if x.done then w else record w { handshake_attempt = some (settle_attempt lib result x) }

unfoldable pub worker_done : Library → Option HttpResult → World → World
unfolding after_worker
worker_done lib result w = after_worker lib result w.handshake_attempt w

-- What `MaybeRetryHandshake` does about an attempt, or the lack of one.
unfoldable pub retry : ℕ → ℕ → Option HandshakeExchange → World → World
unfolding report_handshake
retry now backoff_ms none w = if not (elapsed now w.next_handshake_ms) then w else record w {
  handshake_attempt = some new_exchange;
  next_handshake_ms = add32 now backoff_ms;
}
retry now backoff_ms (some x) w =
    if not x.done then w else report_handshake x (record w { handshake_attempt = none })

unfoldable pub maybe_retry_handshake : ℕ → ℕ → Bool → World → World
unfolding retry
maybe_retry_handshake now backoff_ms enabled w =
    if w.admitted
    then w
    else if w.shutting_down
    then w
    else if not enabled
    then w
    else retry now backoff_ms w.handshake_attempt w

-- `Handshake`, at boot: the world, and whether the service is admitted.
unfoldable pub handshake : Library → HttpResult → Bool → World → World × Bool
unfolding report_handshake attempt_handshake
handshake lib result enabled w =
    let closed : World = record w { admitted = false } in
    let out = attempt_handshake lib result new_exchange in
    if not enabled then (closed, false) else (report_handshake out closed, out.is_ok)

-- The calls, and the worker's end, with what each reads from outside.
pub data HandshakeEvent : Type 0 where
  booted : Library → HttpResult → Bool → HandshakeEvent
  retried : ℕ → ℕ → Bool → HandshakeEvent
  worker_ended : Library → Option HttpResult → HandshakeEvent

unfoldable pub handshake_step : HandshakeEvent → World → World
handshake_step (booted lib result enabled) w = (handshake lib result enabled w).0
handshake_step (retried now backoff_ms enabled) w = maybe_retry_handshake now backoff_ms enabled w
handshake_step (worker_ended lib result) w = worker_done lib result w

unfoldable pub handshake_run : List HandshakeEvent → World → World
unfolding handshake_step
handshake_run [] w = w
handshake_run (e ∷ es) w = handshake_run es (handshake_step e w)
