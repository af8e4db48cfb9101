-- ===== src/Bridge/Runs/Lifecycle/Answers.antt =====
-- What an answer does to the table, as a turn of the automaton.
use twow_repo.Base.{
  ℕ, Bool, true, false, not, ◌&&◌, ◌||◌, [], ◌∷◌, ◌++◌, Option, none, some, ◌≡◌, refl, sym, subst,
  ◌∙◌, inl, inr, if◌then◌else◌, if-keeps, Bool-cases, none_ne_some, some_inj, ltb, Bytes, codes,
  bytes_eq, length, filter,
}
use twow_repo.Wire.Json.{Json}
use twow_repo.Bridge.Messages.{field, is_text}
use twow_repo.Bridge.Messages.Dispositions.{
  CommandKind, nothing, submit, status, consume, metrics, shutdown, Disposition, validate_response,
}
use twow_repo.Bridge.State.{
  pending_submit, accepted, terminal, consuming, delivery_pending, Route, Routes, Delivery, Impl,
  find_route, erase_route, retire_route, latch_ledger, ledger_exhausted, is_ready,
  is_pending_submit,
}
use twow_repo.Bridge.State.Tables.{Ascending, filter-Ascending, find_route-id}
use twow_repo.Bridge.Commands.{completion_capacity}
use twow_repo.Bridge.Responses.{
  apply_response, apply_valid, found_applied, route_applied, submit_applied, status_applied,
  consume_applied, with_phase, phase_of, is_shutdown,
}
use twow_repo.Bridge.Runs.Invariant.{phase_at, Awaits, Shrinks, filter-Shrinks, erase-Shrinks}
use twow_repo.Bridge.Runs.Applied.{guarded, either}
use twow_repo.Bridge.Runs.Lifecycle.{next_phase, OneTurn}
use twow_repo.Bridge.Runs.Lifecycle.Turns.{Shrinks-OneTurn, same-OneTurn, set_phase-OneTurn}

abbrev Turns : Impl → Impl → Type 0
Turns s t = OneTurn s.routes t.routes

retire-Turns : (id : Bytes) (s : Impl) → Turns s (retire_route id s)
unfolding retire_route
retire-Turns id s = Shrinks-OneTurn s.routes (erase_route id s.routes) (erase-Shrinks id s.routes)

submit_applied-Turns :
    (r : Route) (d : Disposition) (v : Json) (s : Impl)
    → phase_at r.request_id s.routes ≡ some pending_submit
    → Turns s (submit_applied r d v s)
unfolding submit_applied
submit_applied-Turns r d v s e =
    if-keeps (Turns s) (is_text (field v (codes "code")) (codes "identity_mismatch"))
      (retire_route r.request_id s) (with_phase r.request_id (phase_of d) s)
      (λ _. retire-Turns r.request_id s)
      (λ _.
        set_phase-OneTurn r.request_id (phase_of d) pending_submit s.routes e
          (either_phase d.terminal))
  where
    either_phase : (b : Bool) → next_phase pending_submit (if b then terminal else accepted) ≡ true
    either_phase true = refl
    either_phase false = refl

status_applied-Turns :
    (r : Route) (d : Disposition) (v : Json) (s : Impl)
    → phase_at r.request_id s.routes ≡ some accepted
    → Turns s (status_applied r d v s)
unfolding status_applied
status_applied-Turns r d v s e =
    let kept = with_phase r.request_id (phase_of d) s in
    let gone = retire_route r.request_id s in
    let is_consumed = bytes_eq d.status_state (codes "consumed") in
    if-keeps (Turns s) (not (is_text (field v (codes "code")) (codes "ok"))) gone
      (if is_consumed then gone else kept) (λ _. retire-Turns r.request_id s)
      (λ _.
        if-keeps (Turns s) is_consumed gone kept (λ _. retire-Turns r.request_id s)
          (λ _.
            set_phase-OneTurn r.request_id (phase_of d) accepted s.routes e
              (either_phase d.terminal)))
  where
    either_phase : (b : Bool) → next_phase accepted (if b then terminal else accepted) ≡ true
    either_phase true = refl
    either_phase false = refl

consume_applied-Turns :
    (now : ℕ) (r : Route) (d : Disposition) (v : Json) (s : Impl)
    → phase_at r.request_id s.routes ≡ some consuming
    → Turns s (consume_applied now r d v s)
unfolding consume_applied
consume_applied-Turns now r d v s e =
    let answer : Delivery = record { route = r; completion = d.completion } in
    let queued = record (with_phase r.request_id delivery_pending s) {
      deliveries = s.deliveries ++ answer ∷ [];
    } in
    let gone = retire_route r.request_id s in
    let back = with_phase r.request_id accepted s in
    let fits =
      bytes_eq d.completion.outcome (codes "ready")
      && ltb now r.deadline
      && ltb (length s.deliveries) completion_capacity in
    let other = d.already_consumed || not (is_text (field v (codes "code")) (codes "not_ready")) in
    if-keeps (Turns s) d.consumed (if fits then queued else gone) (if other then gone else back)
      (λ _.
        if-keeps (Turns s) fits queued gone
          (λ _. set_phase-OneTurn r.request_id delivery_pending consuming s.routes e refl)
          (λ _. retire-Turns r.request_id s))
      (λ _.
        if-keeps (Turns s) other gone back (λ _. retire-Turns r.request_id s)
          (λ _. set_phase-OneTurn r.request_id accepted consuming s.routes e refl))

route_applied-Turns :
    (now : ℕ) (kind : CommandKind) (r : Route) (d : Disposition) (v : Json) (s : Impl)
    → Awaits kind r.request_id s.routes
    → Turns s (route_applied now kind r d v s)
unfolding route_applied
route_applied-Turns now submit r d v s a = submit_applied-Turns r d v s a
route_applied-Turns now status r d v s a = status_applied-Turns r d v s a
route_applied-Turns now consume r d v s a = consume_applied-Turns now r d v s a
route_applied-Turns now metrics r d v s a = same-OneTurn s.routes
route_applied-Turns now shutdown r d v s a = same-OneTurn s.routes
route_applied-Turns now nothing r d v s a = same-OneTurn s.routes

Shrinks-trans : (rs rs' rs'' : Routes) → Shrinks rs rs' → Shrinks rs' rs'' → Shrinks rs rs''
Shrinks-trans rs rs' rs'' h k id = elim (k id) [
  | inl e ↦ inl e
  | inr e ↦ elim (h id) [ inl f ↦ inl (e ∙ f) | inr f ↦ inr (e ∙ f) ]
]

latch-Turns :
    (id : Bytes) (s : Impl) → Ascending s.routes → Turns s (latch_ledger (retire_route id s))
unfolding latch_ledger retire_route erase_route
latch-Turns id s a =
    let left = erase_route id s.routes in
    let t = retire_route id s in
    let unsent = λ (r : Route). not (is_pending_submit r.phase) in
    let first = Shrinks-OneTurn s.routes left (erase-Shrinks id s.routes) in
    let asc : Ascending left = filter-Ascending (λ r. not (bytes_eq r.request_id id)) s.routes a in
    if-keeps (Turns s) (not (is_ready s.status)) t
      (if s.ledger_warning then record t { status = ledger_exhausted } else record t {
        status = ledger_exhausted;
        ledger_warning = true;
        routes = filter unsent left;
      })
      (λ _. first)
      (λ _.
        if-keeps (Turns s) s.ledger_warning (record t { status = ledger_exhausted })
          (record t {
            status = ledger_exhausted;
            ledger_warning = true;
            routes = filter unsent left;
          })
          (λ _. first)
          (λ _. Shrinks-OneTurn s.routes (filter unsent left) (
            Shrinks-trans s.routes left (filter unsent left) (erase-Shrinks id s.routes)
              (filter-Shrinks unsent left asc))))

found_applied-Turns :
    (now : ℕ) (kind : CommandKind) (id : Bytes) (o : Option Route) (d : Disposition) (v : Json)
    (s t : Impl)
    → find_route id s.routes ≡ o
    → Awaits kind id s.routes
    → Ascending s.routes
    → found_applied now kind o d v s ≡ some t
    → Turns s t
unfolding found_applied
found_applied-Turns now kind id none d v s t f a k h = absurd (none_ne_some h)
found_applied-Turns now kind id (some r) d v s t f a k h =
    either d.ledger_full (Turns s) h (λ _. latch-Turns r.request_id s k)
      (λ _.
        route_applied-Turns now kind r d v s
          (subst (λ t. Awaits kind t s.routes) (sym (find_route-id id s.routes r f)) a))

pub apply_response-OneTurn :
    (now : ℕ) (kind : CommandKind) (id : Bytes) (v : Json) (s t : Impl)
    → Awaits kind id s.routes
    → Ascending s.routes
    → apply_response now kind id v s ≡ some t
    → OneTurn s.routes t.routes
unfolding apply_response apply_valid
apply_response-OneTurn now kind id v s t a k h =
    let d = validate_response kind v id in
    let g =
      guarded d.valid
        (if is_shutdown kind
          then some (record s { shutdown_acknowledged = true })
          else found_applied now kind (find_route id s.routes) d v s)
        h in
    elim (Bool-cases (is_shutdown kind)) [
      | inl f ↦
          subst (λ t. OneTurn s.routes t.routes) (some_inj (rw f at g)) (same-OneTurn s.routes)
      | inr f ↦
          found_applied-Turns now kind id (find_route id s.routes) d v s t refl a k (rw f at g)
    ]
