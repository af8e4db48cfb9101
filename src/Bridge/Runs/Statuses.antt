-- ===== src/Bridge/Runs/Statuses.antt =====
-- What the parts of the client do to its state, and when they do.
use twow_repo.Base.{
  ℕ, Bool, true, false, not, ◌&&◌, ◌||◌, Option, none, some, ◌≡◌, refl, sym, ap, arith, ◌⊎◌, inl,
  inr, if◌then◌else◌, Bool-cases, none_ne_some, some_inj, Bytes,
}
use twow_repo.Wire.Json.{Json}
use twow_repo.Bridge.Messages.Dispositions.{
  CommandKind, nothing, submit, status, consume, metrics, shutdown, Disposition, validate_response,
}
use twow_repo.Bridge.State.{
  Status, ready, ledger_exhausted, Route, Impl, find_route, latch_ledger, retire_route,
  failed_status, fail, is_ready, is_exhausted,
}
use twow_repo.Bridge.Responses.{
  apply_response, apply_valid, found_applied, route_applied, submit_applied, status_applied,
  consume_applied, is_shutdown,
}
use twow_repo.Bridge.Runs.Invariant.{is_open}
use twow_repo.Bridge.Runs.Applied.{guarded, either}

-- The state stays, or the ledger closes it.
abbrev pub Latches : Status → Status → Type 0
Latches old new = (new ≡ old) ⊎ ((old ≡ ready) × (new ≡ ledger_exhausted))

latch_ledger-Latches : (s : Impl) → Latches s.status (latch_ledger s).status
unfolding latch_ledger
latch_ledger-Latches s = ground arith

route_applied-status :
    (now : ℕ) (kind : CommandKind) (r : Route) (d : Disposition) (v : Json) (s : Impl)
    → (route_applied now kind r d v s).status ≡ s.status
unfolding route_applied submit_applied status_applied consume_applied retire_route
route_applied-status now submit r d v s = ground arith
route_applied-status now status r d v s = ground arith
route_applied-status now consume r d v s = ground arith
route_applied-status now metrics r d v s = refl
route_applied-status now shutdown r d v s = refl
route_applied-status now nothing r d v s = refl

found_applied-Latches :
    (now : ℕ) (kind : CommandKind) (o : Option Route) (d : Disposition) (v : Json) (s s' : Impl)
    → found_applied now kind o d v s ≡ some s'
    → Latches s.status s'.status
unfolding found_applied retire_route
found_applied-Latches now kind none d v s s' h = absurd (none_ne_some h)
found_applied-Latches now kind (some r) d v s s' h =
    either d.ledger_full (λ t. Latches s.status t.status) h
      (λ _. latch_ledger-Latches (retire_route r.request_id s))
      (λ _. inl (route_applied-status now kind r d v s))

pub apply_response-Latches :
    (now : ℕ) (kind : CommandKind) (id : Bytes) (v : Json) (s s' : Impl)
    → apply_response now kind id v s ≡ some s'
    → Latches s.status s'.status
unfolding apply_response apply_valid
apply_response-Latches now kind id v s s' h =
    let d = validate_response kind v id in
    let g =
      guarded d.valid
        (if is_shutdown kind
          then some (record s { shutdown_acknowledged = true })
          else found_applied now kind (find_route id s.routes) d v s)
        h in
    elim (Bool-cases (is_shutdown kind)) [
      | inl f ↦ inl (sym (ap (λ t. t.status) (some_inj (rw f at g))))
      | inr f ↦ found_applied-Latches now kind (find_route id s.routes) d v s s' (rw f at g)
    ]

pub Latches-open : (s s' : Impl) → Latches s.status s'.status → is_open s' ≡ true → is_open s ≡ true
Latches-open s s' h o = ground arith

-- A failure closes the client.
abbrev pub is_failure : Status → Bool
is_failure state = not (is_ready state) && not (is_exhausted state)

fail_status :
    (old new : Status)
    → is_failure new ≡ true
    → (is_ready (failed_status old new) || is_exhausted (failed_status old new)) ≡ false
fail_status Status.disabled new h = ground arith
fail_status Status.starting new h = ground arith
fail_status Status.ready new h = ground arith
fail_status Status.ledger_exhausted new h = ground arith
fail_status Status.protocol_failed new h = refl
fail_status Status.child_failed new h = refl
fail_status Status.shutting_down new h = ground arith
fail_status Status.stopped new h = refl

pub fail-closes :
    (state : Status) (reason : Bytes) (s : Impl)
    → is_failure state ≡ true
    → is_open (fail state reason s) ≡ false
unfolding fail
fail-closes state reason s h = fail_status s.status state h
