-- ===== src/Pipeline/Handshake/Admitted.antt =====
-- What an admission rests on, and the batch size that it leaves.
use twow_repo.Base.{
  ℕ, ◌≤◌, ◌<◌, ◌^◌, Bool, true, false, not, List, [], ◌∷◌, Option, none, some, if◌then◌else◌, ◌≡◌,
  refl, arith,
}
use twow_repo.Base.Int.{ℤ, pos, negsuc, to_unsigned}
use twow_repo.Wire.Vocabulary.{contract_major}
use twow_repo.Wire.Json.{Library, Result, ok, err, is_int32}
use twow_repo.Wire.Types.{ContractInfo}
use twow_repo.Wire.Decode.{decode_contract_info, contract_major_supported}
use twow_repo.Wire.Decode.Contract.{FitsResult, decode_contract_info-fits}
use twow_repo.Pipeline.Clock.{elapsed}
use twow_repo.Pipeline.State.{HandshakeExchange, World}
use twow_repo.Pipeline.State.Store.{if-keeps}
use twow_repo.Pipeline.Handshake.{
  HttpResult, new_exchange, take_info, attempt_handshake, report_handshake, settle_attempt,
  worker_done, retry, maybe_retry_handshake, handshake, after_worker, HandshakeEvent, booted,
  retried, worker_ended, handshake_step, handshake_run,
}

-- The reply was fetched and decodes to a contract that supports this build's major version.
abbrev pub is_compatible : Result ContractInfo → Bool
is_compatible (err why) = false
is_compatible (ok info) = contract_major_supported info (pos contract_major)

abbrev pub answers_for : Library → HttpResult → Bool
answers_for lib result =
    if result.is_ok then is_compatible (decode_contract_info lib result.body) else false

take_info-is_ok :
    (r : Result ContractInfo) (out : HandshakeExchange)
    → out.is_ok ≡ false
    → (take_info r out).is_ok ≡ is_compatible r
unfolding take_info
take_info-is_ok (err why) out h = h
take_info-is_ok (ok info) out h = ground arith

attempt_handshake-is_ok :
    (lib : Library) (result : HttpResult)
    → (attempt_handshake lib result new_exchange).is_ok ≡ answers_for lib result
unfolding attempt_handshake
attempt_handshake-is_ok lib result =
    ground (arith, take_info-is_ok (decode_contract_info lib result.body) new_exchange refl)

-- After the handshake at boot the service is admitted exactly when the module is on, the contract
-- was fetched, and it supports this build's major version, whatever was admitted before; and the
-- function returns just that.
pub handshake-admitted :
    (lib : Library) (result : HttpResult) (enabled : Bool) (w : World)
    → ((handshake lib result enabled w).0.admitted
        ≡ (if enabled then answers_for lib result else false))
      × ((handshake lib result enabled w).1 ≡ (if enabled then answers_for lib result else false))
unfolding handshake report_handshake
handshake-admitted lib result enabled w =
    let h = attempt_handshake-is_ok lib result in (ground (arith, h), ground (arith, h))

-- A batch size that a batch can reach, in 32 bits.
abbrev pub IsReachable : World → Type 0
IsReachable w = (1 ≤ w.max_batch) × (w.max_batch < 2 ^ 32)

-- The size that an exchange carries fits an `int`.
abbrev pub FitsInt : Option HandshakeExchange → Type 0
FitsInt none = Unit
FitsInt (some x) = is_int32 x.max_batch ≡ true

report_handshake-IsReachable :
    (out : HandshakeExchange) (w : World)
    → is_int32 out.max_batch ≡ true
    → IsReachable w
    → IsReachable (report_handshake out w)
unfolding report_handshake to_unsigned
report_handshake-IsReachable out w fits h = go out.max_batch fits
  where
    go :
        (z : ℤ)
        → is_int32 z ≡ true
        → IsReachable (report_handshake (record out { max_batch = z }) w)
    go (pos n) f = (ground (arith, h.0, h.1), ground (arith, h.0, h.1))
    go (negsuc n) f = (ground (arith, h.0, h.1), ground (arith, h.0, h.1))

maybe_retry_handshake-IsReachable :
    (now backoff_ms : ℕ) (enabled : Bool) (w : World)
    → FitsInt w.handshake_attempt
    → IsReachable w
    → IsReachable (maybe_retry_handshake now backoff_ms enabled w)
unfolding maybe_retry_handshake retry
maybe_retry_handshake-IsReachable now backoff_ms enabled w fits h =
    if-keeps IsReachable w.admitted w _ (λ q. h)
      (λ q.
        if-keeps IsReachable w.shutting_down w _ (λ r. h)
          (λ r. if-keeps IsReachable (not enabled) w _ (λ t. h) (λ t. go w.handshake_attempt fits)))
  where
    go : (a : Option HandshakeExchange) → FitsInt a → IsReachable (retry now backoff_ms a w)
    go none f = if-keeps IsReachable (not (elapsed now w.next_handshake_ms)) w _ (λ q. h) (λ q. h)
    go (some x) f =
        if-keeps IsReachable (not x.done) w _ (λ q. h)
          (λ q. report_handshake-IsReachable x (record w { handshake_attempt = none }) f h)

attempt_handshake-fits :
    (lib : Library) (result : HttpResult) (out : HandshakeExchange)
    → is_int32 out.max_batch ≡ true
    → is_int32 (attempt_handshake lib result out).max_batch ≡ true
unfolding attempt_handshake take_info
attempt_handshake-fits lib result out h =
    if-keeps (λ (x : HandshakeExchange). is_int32 x.max_batch ≡ true) (not result.is_ok)
      (record out { error = result.error }) (take_info (decode_contract_info lib result.body) out)
      (λ q. h)
      (λ q. go (decode_contract_info lib result.body) (decode_contract_info-fits lib result.body))
  where
    go : (r : Result ContractInfo) → FitsResult r → is_int32 (take_info r out).max_batch ≡ true
    go (err why) f = h
    go (ok info) f = ground arith

settle_attempt-fits :
    (lib : Library) (result : Option HttpResult) (out : HandshakeExchange)
    → is_int32 out.max_batch ≡ true
    → is_int32 (settle_attempt lib result out).max_batch ≡ true
unfolding settle_attempt
settle_attempt-fits lib none out h = h
settle_attempt-fits lib (some result) out h = attempt_handshake-fits lib result out h

-- A batch size that can be reached, and an attempt that does not lose that.
abbrev pub IsSteady : World → Type 0
IsSteady w = IsReachable w × FitsInt w.handshake_attempt

report_handshake-attempt :
    (out : HandshakeExchange) (w : World)
    → FitsInt w.handshake_attempt
    → FitsInt (report_handshake out w).handshake_attempt
unfolding report_handshake
report_handshake-attempt out w h =
    if-keeps (λ (v : World). FitsInt v.handshake_attempt) out.is_ok _ w (λ q. h) (λ q. h)

handshake_step-IsSteady :
    (e : HandshakeEvent) (w : World) → IsSteady w → IsSteady (handshake_step e w)
unfolding handshake_step handshake worker_done after_worker maybe_retry_handshake retry
handshake_step-IsSteady (booted lib result enabled) w h =
    if-keeps (λ (r : World × Bool). IsSteady r.0) (not enabled) _ _ (λ q. h)
      (λ q. (
        report_handshake-IsReachable (attempt_handshake lib result new_exchange)
            (record w { admitted = false }) (attempt_handshake-fits lib result new_exchange refl)
            h.0,
        report_handshake-attempt (attempt_handshake lib result new_exchange)
            (record w { admitted = false }) h.1,
      ))
handshake_step-IsSteady (retried now backoff_ms enabled) w h = (
  maybe_retry_handshake-IsReachable now backoff_ms enabled w h.1 h.0,
  if-keeps (λ (v : World). FitsInt v.handshake_attempt) w.admitted w _ (λ q. h.1)
      (λ q.
        if-keeps (λ (v : World). FitsInt v.handshake_attempt) w.shutting_down w _ (λ r. h.1)
          (λ r.
            if-keeps (λ (v : World). FitsInt v.handshake_attempt) (not enabled) w _ (λ t. h.1)
              (λ t. go w.handshake_attempt))),
)
  where
    go : (a : Option HandshakeExchange) → FitsInt (retry now backoff_ms a w).handshake_attempt
    go none =
        if-keeps (λ (v : World). FitsInt v.handshake_attempt)
          (not (elapsed now w.next_handshake_ms)) w _ (λ q. h.1) (λ q. refl)
    go (some x) =
        if-keeps (λ (v : World). FitsInt v.handshake_attempt) (not x.done) w _ (λ q. h.1)
          (λ q. report_handshake-attempt x (record w { handshake_attempt = none }) tt)
handshake_step-IsSteady (worker_ended lib result) w h =
    (ended w.handshake_attempt, kept w.handshake_attempt h.1)
  where
    ended : (a : Option HandshakeExchange) → IsReachable (after_worker lib result a w)
    ended none = h.0
    ended (some x) = if-keeps IsReachable x.done w _ (λ q. h.0) (λ q. h.0)

    kept :
        (a : Option HandshakeExchange)
        → FitsInt a
        → FitsInt (after_worker lib result a w).handshake_attempt
    kept none f = h.1
    kept (some x) f =
        if-keeps (λ (v : World). FitsInt v.handshake_attempt) x.done w _ (λ q. h.1)
          (λ q. settle_attempt-fits lib result x f)

-- Where the batch size is at least 1 and below 2^32, and an attempt that is in flight carries a size
-- that fits an `int`, both still hold after any run of boots, retries and ended workers, whatever
-- the service answers.
pub handshake_run-IsSteady :
    (es : List HandshakeEvent) (w : World) → IsSteady w → IsSteady (handshake_run es w)
unfolding handshake_run
handshake_run-IsSteady [] w h = h
handshake_run-IsSteady (e ∷ es) w h =
    handshake_run-IsSteady es (handshake_step e w) (handshake_step-IsSteady e w h)
