-- ===== src/Bridge/Runs/Bounds.antt =====
-- What any run of the client keeps, and when an answer closes it.
use twow_repo.Base.{
  ℕ, Bool, true, false, not, List, Option, none, some, ◌≡◌, ◌≢◌, ◌↔◌, refl, ap, if◌then◌else◌,
  none_ne_some, Bytes,
}
use twow_repo.Wire.Json.{Json}
use twow_repo.Bridge.Messages.Strict.{Parser}
use twow_repo.Bridge.Messages.Dispositions.{
  CommandKind, nothing, submit, status, consume, metrics, shutdown, Disposition, validate_response,
}
use twow_repo.Bridge.State.{Route, Routes, Delivery, Impl, find_route, latch_ledger, retire_route}
use twow_repo.Bridge.Responses.{
  apply_response, apply_valid, found_applied, route_applied, is_shutdown,
}
use twow_repo.Bridge.Whispers.{World}
use twow_repo.Bridge.Worker.{Bridge}
use twow_repo.Bridge.Runs.{Event, start_system, run}
use twow_repo.Bridge.Runs.Invariant.{IsSound, Awaits, phase_at, phase_found}
use twow_repo.Bridge.Runs.Steps.{AllFresh, run-IsSound, start_system-IsSound}

-- After any calls and steps, in any order, in which each submission draws an id that is not in
-- use: the table is in the order of its ids and holds at most three requests, at most three
-- answers wait, the state is `Ready` or `LedgerExhausted` only behind the ready record, the
-- request whose answer is awaited is in the table and in the phase of its command, and the
-- request of each answer on its way is gone or waits for it.
pub run-start-IsSound :
    (w : World) (p : Parser) (es : List Event)
    → AllFresh w p es start_system
    → IsSound (run w p es start_system).bridge (run w p es start_system).held
run-start-IsSound w p es f = run-IsSound w p es start_system f start_system-IsSound

awaited_route :
    (kind : CommandKind) (id : Bytes) (rs : Routes)
    → kind ≢ nothing
    → is_shutdown kind ≡ false
    → Awaits kind id rs
    → (r : Route) × (find_route id rs ≡ some r)
awaited_route kind id rs n m a = go (find_route id rs) refl
  where
    known :
        (kind : CommandKind)
        → kind ≢ nothing
        → is_shutdown kind ≡ false
        → Awaits kind id rs
        → phase_at id rs ≢ none
    known submit n m a = λ e. cc
    known status n m a = λ e. cc
    known consume n m a = λ e. cc
    known metrics n m a = absurd a
    known shutdown n m a = λ e. cc
    known nothing n m a = absurd (n refl)

    go : (o : Option Route) → find_route id rs ≡ o → (r : Route) × (find_route id rs ≡ some r)
    go none e = absurd (known kind n m a (ap phase_found e))
    go (some r) e = (r, e)

abbrev IsSome : Option Impl → Type 0
IsSome o = (t : Impl) × (o ≡ some t)

found_applied-some :
    (now : ℕ) (kind : CommandKind) (o : Option Route) (r : Route) (d : Disposition) (v : Json)
    (s : Impl)
    → o ≡ some r
    → IsSome (found_applied now kind o d v s)
unfolding found_applied
found_applied-some now kind none r d v s e = absurd (none_ne_some e)
found_applied-some now kind (some x) r d v s e =
    some_if d.ledger_full (latch_ledger (retire_route x.request_id s))
      (route_applied now kind x d v s)
  where
    some_if : (b : Bool) (x y : Impl) → IsSome (if b then some x else some y)
    some_if true x y = (x, refl)
    some_if false x y = (y, refl)

valid_iff :
    (valid last : Bool) (x : Impl) (o : Option Impl)
    → (last ≡ false → IsSome o)
    → (valid ≡ true) ↔ IsSome (if not valid then none else if last then some x else o)
valid_iff true true x o h = ((λ _. (x, refl)), (λ _. refl))
valid_iff true false x o h = ((λ _. h refl), (λ _. refl))
valid_iff false last x o h = ((λ e. absurd (cc)), (λ p. absurd (none_ne_some p.1)))

-- The worker of a sound client that awaits an answer takes the next record for one exactly when
-- `ValidateResponse` says that it is valid: a request that has left the table is never the reason
-- to close the bridge.
pub apply_response_iff :
    (now : ℕ) (v : Json) (b : Bridge) (held : List Delivery)
    → IsSound b held
    → b.pending_kind ≢ nothing
    → ((validate_response b.pending_kind v b.pending_request).valid ≡ true)
      ↔ ((s : Impl) × (apply_response now b.pending_kind b.pending_request v b.impl ≡ some s))
unfolding apply_response apply_valid
apply_response_iff now v b held h n =
    let kind = b.pending_kind in
    let id = b.pending_request in
    let d = validate_response kind v id in
    valid_iff d.valid (is_shutdown kind) (record b.impl { shutdown_acknowledged = true })
      (found_applied now kind (find_route id b.impl.routes) d v b.impl)
      (λ last.
        let (r, e) = awaited_route kind id b.impl.routes n last h.awaited in
        found_applied-some now kind (find_route id b.impl.routes) r d v b.impl e)
