-- ===== src/Bridge/Runs/Applied.antt =====
-- What an answer of the process does to the tables.
use twow_repo.Base.{
  ℕ, ◌≤◌, Bool, true, false, not, ◌&&◌, ◌||◌, List, [], ◌∷◌, ◌++◌, Option, none, some, ◌≡◌, refl,
  sym, subst, arith, inl, inr, if◌then◌else◌, if-keeps, Bool-cases, some_inj, none_ne_some, ltb,
  Bytes, codes, bytes_eq, length, length-filter-le, length-append, filter, All-append,
}
use twow_repo.Wire.Json.{Json}
use twow_repo.Bridge.Messages.Dispositions.{
  CommandKind, nothing, submit, status, consume, metrics, shutdown, Disposition, validate_response,
}
use twow_repo.Bridge.Messages.{field, is_text}
use twow_repo.Bridge.Commands.{completion_capacity}
use twow_repo.Bridge.State.{
  is_ready, Phase, pending_submit, accepted, consuming, delivery_pending, Route, Routes, Delivery,
  Impl, find_route, erase_route, set_phase, retire_route, latch_ledger, is_pending_submit,
}
use twow_repo.Bridge.State.Tables.{
  Ascending, filter-Ascending, set_phase-Ascending, length-set_phase, find_route-id,
}
use twow_repo.Bridge.Responses.{
  apply_response, apply_valid, found_applied, route_applied, submit_applied, status_applied,
  consume_applied, with_phase, phase_of, is_shutdown,
}
use twow_repo.Bridge.Runs.Invariant.{
  Kept, phase_at, Awaits, IsSettled, filter-Shrinks, AllSettled-Shrinks, phase_at-set_same, Busy,
  AllSettled-set_phase, Awaits-Busy,
}

pub guarded {ℓ} :
    {A : Type ℓ} (b : Bool) (o : Option A) {a : A}
    → (if not b then none else o) ≡ some a
    → o ≡ some a
guarded true o h = h
guarded false o h = absurd (none_ne_some h)

pub either {ℓ κ} :
    {A : Type ℓ} (b : Bool) (P : A → Type κ) {x y a : A}
    → (if b then some x else some y) ≡ some a
    → (b ≡ true → P x)
    → (b ≡ false → P y)
    → P a
either true P h f g = subst P (some_inj h) (f refl)
either false P h f g = subst P (some_inj h) (g refl)

module _ (held : List Delivery) where
  pub filter-Kept :
      (keeps : Route → Bool) (s : Impl)
      → Kept s held
      → Kept (record s { routes = filter keeps s.routes }) held
  filter-Kept keeps s k =
      let shrinks = filter-Shrinks keeps s.routes k.ascending in
      record {
        ascending = filter-Ascending keeps s.routes k.ascending;
        few = omega (arith, length-filter-le keeps s.routes, k.few);
        few_deliveries = k.few_deliveries;
        settled =
            AllSettled-Shrinks s.routes (filter keeps s.routes) s.deliveries shrinks k.settled;
        settled_held =
            AllSettled-Shrinks s.routes (filter keeps s.routes) held shrinks k.settled_held;
      }

  pub retire-Kept : (id : Bytes) (s : Impl) → Kept s held → Kept (retire_route id s) held
  unfolding retire_route erase_route
  retire-Kept id s k = filter-Kept (λ r. not (bytes_eq r.request_id id)) s k

  pub status-Kept :
      (s s' : Impl)
      → s'.routes ≡ s.routes
      → s'.deliveries ≡ s.deliveries
      → Kept s held
      → Kept s' held
  status-Kept s s' e f k = record {
    ascending = subst Ascending (sym e) k.ascending;
    few = rw e k.few;
    few_deliveries = rw f k.few_deliveries;
    settled = rw (e, f) k.settled;
    settled_held = rw e k.settled_held;
  }

  latch-Kept : (s : Impl) → Kept s held → Kept (latch_ledger s) held
  unfolding latch_ledger
  latch-Kept s k =
      if-keeps (λ t. Kept t held) (not (is_ready s.status)) _ _ (λ _. k)
        (λ _.
          if-keeps (λ t. Kept t held) s.ledger_warning _ _ (λ _. status-Kept s _ refl refl k)
            (λ _.
              status-Kept
                (record s { routes = filter (λ r. not (is_pending_submit r.phase)) s.routes }) _
                refl refl (filter-Kept (λ r. not (is_pending_submit r.phase)) s k)))

  pub phase-Kept :
      (id : Bytes) (phase : Phase) (s : Impl)
      → Busy s.routes id
      → Kept s held
      → Kept (record s { routes = set_phase id phase s.routes }) held
  phase-Kept id phase s b k = record {
    ascending = set_phase-Ascending id phase s.routes k.ascending;
    few = rw (length-set_phase id phase s.routes) k.few;
    few_deliveries = k.few_deliveries;
    settled = AllSettled-set_phase s.routes id phase s.deliveries b k.settled;
    settled_held = AllSettled-set_phase s.routes id phase held b k.settled_held;
  }

  -- The route of a completion takes its place in the queue.
  queue-Kept :
      (d : Delivery) (old : Phase) (s : Impl)
      → phase_at d.route.request_id s.routes ≡ some old
      → Busy s.routes d.route.request_id
      → length s.deliveries ≤ 2
      → Kept s held
      → Kept
          (record (with_phase d.route.request_id delivery_pending s) {
            deliveries = s.deliveries ++ d ∷ [];
          })
          held
  queue-Kept d old s e b l k =
      let m = phase-Kept d.route.request_id delivery_pending s b k in
      record {
        ascending = m.ascending;
        few = m.few;
        few_deliveries = omega (arith, length-append s.deliveries (d ∷ []));
        settled =
            All-append (IsSettled (set_phase d.route.request_id delivery_pending s.routes))
              s.deliveries (d ∷ []) m.settled
              (inr (phase_at-set_same d.route.request_id delivery_pending old s.routes e), tt);
        settled_held = m.settled_held;
      }

  submit_applied-Kept :
      (r : Route) (d : Disposition) (v : Json) (s : Impl)
      → Busy s.routes r.request_id
      → Kept s held
      → Kept (submit_applied r d v s) held
  unfolding submit_applied
  submit_applied-Kept r d v s b k =
      if-keeps (λ t. Kept t held) (is_text (field v (codes "code")) (codes "identity_mismatch"))
        (retire_route r.request_id s) (with_phase r.request_id (phase_of d) s)
        (λ _. retire-Kept r.request_id s k) (λ _. phase-Kept r.request_id (phase_of d) s b k)

  status_applied-Kept :
      (r : Route) (d : Disposition) (v : Json) (s : Impl)
      → Busy s.routes r.request_id
      → Kept s held
      → Kept (status_applied r d v s) held
  unfolding status_applied
  status_applied-Kept r d v s b k =
      let kept = with_phase r.request_id (phase_of d) s in
      let is_consumed = bytes_eq d.status_state (codes "consumed") in
      if-keeps (λ t. Kept t held) (not (is_text (field v (codes "code")) (codes "ok")))
        (retire_route r.request_id s) (if is_consumed then retire_route r.request_id s else kept)
        (λ _. retire-Kept r.request_id s k)
        (λ _.
          if-keeps (λ t. Kept t held) is_consumed (retire_route r.request_id s) kept
            (λ _. retire-Kept r.request_id s k) (λ _. phase-Kept r.request_id (phase_of d) s b k))

  room_left : (a b : Bool) (n : ℕ) → (a && b && ltb n 3) ≡ true → n ≤ 2
  room_left a b n h = ground arith

  consume_applied-Kept :
      (now : ℕ) (r : Route) (d : Disposition) (v : Json) (s : Impl)
      → phase_at r.request_id s.routes ≡ some consuming
      → Busy s.routes r.request_id
      → Kept s held
      → Kept (consume_applied now r d v s) held
  unfolding consume_applied
  consume_applied-Kept now r d v s e b k =
      let answer : Delivery = record { route = r; completion = d.completion } in
      let queued = record (with_phase r.request_id delivery_pending s) {
        deliveries = s.deliveries ++ answer ∷ [];
      } in
      let gone = retire_route r.request_id s in
      let back = with_phase r.request_id accepted s in
      let is_text_ready = bytes_eq d.completion.outcome (codes "ready") in
      let in_time = ltb now r.deadline in
      let fits = is_text_ready && in_time && ltb (length s.deliveries) completion_capacity in
      let other =
        d.already_consumed || not (is_text (field v (codes "code")) (codes "not_ready")) in
      if-keeps (λ t. Kept t held) d.consumed (if fits then queued else gone)
        (if other then gone else back)
        (λ _.
          if-keeps (λ t. Kept t held) fits queued gone
            (λ room.
              queue-Kept answer consuming s e b
                (room_left is_text_ready in_time (length s.deliveries) room) k)
            (λ _. retire-Kept r.request_id s k))
        (λ _.
          if-keeps (λ t. Kept t held) other gone back (λ _. retire-Kept r.request_id s k)
            (λ _. phase-Kept r.request_id accepted s b k))

  -- A request that is awaited is in the table, and no delivery is about it.
  abbrev Wanted : CommandKind → Route → Routes → Type 0
  Wanted kind r rs = Awaits kind r.request_id rs

  route_applied-Kept :
      (now : ℕ) (kind : CommandKind) (r : Route) (d : Disposition) (v : Json) (s : Impl)
      → Wanted kind r s.routes
      → Kept s held
      → Kept (route_applied now kind r d v s) held
  unfolding route_applied
  route_applied-Kept now submit r d v s a k =
      submit_applied-Kept r d v s
        (Awaits-Busy submit r.request_id s.routes pending_submit a (λ e. cc)) k
  route_applied-Kept now status r d v s a k =
      status_applied-Kept r d v s (Awaits-Busy status r.request_id s.routes accepted a (λ e. cc)) k
  route_applied-Kept now consume r d v s a k =
      consume_applied-Kept now r d v s a
        (Awaits-Busy consume r.request_id s.routes consuming a (λ e. cc)) k
  route_applied-Kept now metrics r d v s a k = k
  route_applied-Kept now shutdown r d v s a k = k
  route_applied-Kept now nothing r d v s a k = k

  found_applied-Kept :
      (now : ℕ) (kind : CommandKind) (id : Bytes) (o : Option Route) (d : Disposition) (v : Json)
      (s s' : Impl)
      → find_route id s.routes ≡ o
      → Awaits kind id s.routes
      → Kept s held
      → found_applied now kind o d v s ≡ some s'
      → Kept s' held
  unfolding found_applied
  found_applied-Kept now kind id none d v s s' f a k h = absurd (none_ne_some h)
  found_applied-Kept now kind id (some r) d v s s' f a k h =
      either d.ledger_full (λ t. Kept t held) h
        (λ _. latch-Kept (retire_route r.request_id s) (retire-Kept r.request_id s k))
        (λ _.
          route_applied-Kept now kind r d v s
            (subst (λ t. Awaits kind t s.routes) (sym (find_route-id id s.routes r f)) a) k)

  pub apply_response-Kept :
      (now : ℕ) (kind : CommandKind) (id : Bytes) (v : Json) (s s' : Impl)
      → Awaits kind id s.routes
      → Kept s held
      → apply_response now kind id v s ≡ some s'
      → Kept s' held
  unfolding apply_response apply_valid
  apply_response-Kept now kind id v s s' a k h = apply_valid-Kept (validate_response kind v id) h
    where
      apply_valid-Kept : (d : Disposition) → apply_valid now kind id d v s ≡ some s' → Kept s' held
      apply_valid-Kept d h =
          let g =
            guarded d.valid
              (if is_shutdown kind
                then some (record s { shutdown_acknowledged = true })
                else found_applied now kind (find_route id s.routes) d v s)
              h in
          elim (Bool-cases (is_shutdown kind)) [
            | inl f ↦
                subst (λ t. Kept t held) (some_inj (rw f at g))
                  (status-Kept s (record s { shutdown_acknowledged = true }) refl refl k)
            | inr f ↦
                found_applied-Kept now kind id (find_route id s.routes) d v s s' refl a k
                  (rw f at g)
          ]
