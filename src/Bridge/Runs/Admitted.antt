-- ===== src/Bridge/Runs/Admitted.antt =====
-- What a submission does to the tables.
use twow_repo.Base.{
  ℕ, ◌≤◌, Bool, true, false, not, ◌||◌, List, [], ◌∷◌, Option, none, some, ◌≡◌, refl, ap, ◌∙◌,
  arith, ◌⊎◌, inl, inr, if◌then◌else◌, if-keeps, Bool-cases, Bytes, bytes_eq, bytes_eq_iff, length,
  leb, All,
}
use twow_repo.Bridge.Messages.Dispositions.{
  CommandKind, nothing, submit, status, consume, metrics, shutdown,
}
use twow_repo.Bridge.Uuid.{is_canonical_uuid_v4}
use twow_repo.Bridge.State.{
  Status, Fingerprint, Route, Routes, Delivery, Phase, Impl, is_ready, is_exhausted, find_route,
  find_session, emplace_route,
}
use twow_repo.Bridge.State.Tables.{
  find_route-emplace_route, emplace_route-Ascending, length-emplace_route,
}
use twow_repo.Bridge.Admission.{
  Submission, SubmitResult, admitted, locally_rejected, locally_rejected_ledger_exhausted,
  try_submit, admit, new_route, is_plausible, refusal, outstanding_route_capacity,
}
use twow_repo.Bridge.Runs.Invariant.{Kept, phase_at, phase_found, Awaits, IsSettled}

pub not_found : (o : Option Route) → phase_found o ≡ none → o ≡ none
not_found none e = refl
not_found (some x) e = absurd (cc)

pub phase_at-emplace :
    (key : Bytes) (r : Route) (s : Impl)
    → phase_at r.request_id s.routes ≡ none
    → bytes_eq r.request_id key ≡ false
    → phase_at key (emplace_route r s.routes) ≡ phase_at key s.routes
phase_at-emplace key r s f n = ap phase_found (
    find_route-emplace_route key r s.routes (not_found (find_route r.request_id s.routes) f)
    ∙ rw n refl)

-- The request ids of the deliveries under way.
abbrev pub Unknown : Bytes → List Delivery → Type 0
Unknown id = All λ d. bytes_eq id d.route.request_id ≡ false

module _ (held : List Delivery) where
  emplaced-All :
      (r : Route) (s : Impl) (ds : List Delivery)
      → phase_at r.request_id s.routes ≡ none
      → Unknown r.request_id ds
      → All (IsSettled s.routes) ds
      → All (IsSettled (emplace_route r s.routes)) ds
  emplaced-All r s [] f n h = tt
  emplaced-All r s (d ∷ ds) f n h =
      let same = phase_at-emplace d.route.request_id r s f n.0 in
      (elim h.0 [ inl e ↦ inl (same ∙ e) | inr e ↦ inr (same ∙ e) ], emplaced-All r s ds f n.1 h.1)

  pub emplace-Kept :
      (r : Route) (s : Impl)
      → length s.routes ≤ 2
      → phase_at r.request_id s.routes ≡ none
      → Unknown r.request_id s.deliveries
      → Unknown r.request_id held
      → Kept s held
      → Kept (record s { routes = emplace_route r s.routes }) held
  emplace-Kept r s l f n m k = record {
    ascending = emplace_route-Ascending r s.routes k.ascending;
    few = omega (arith, length-emplace_route r s.routes);
    few_deliveries = k.few_deliveries;
    settled = emplaced-All r s s.deliveries f n k.settled;
    settled_held = emplaced-All r s held f m k.settled_held;
  }

  -- A submission that gets an id that is not in use.
  pub record IsFresh (q : Submission) (s : Impl) : Type 0 where
    pub no_route : phase_at q.uuid s.routes ≡ none
    pub no_delivery : Unknown q.uuid s.deliveries
    pub not_held : Unknown q.uuid held

-- What a submission may do to the tables.
abbrev pub Admits : Submission → Impl → Impl → Type 0
Admits q s t =
    (t ≡ s)
    ⊎ ((bot : Fingerprint) × (target : Fingerprint) × (length s.routes ≤ 2)
        × (is_ready s.status ≡ true)
        × (t ≡ record s { routes = emplace_route (new_route q bot target s.request_ttl) s.routes }))

admit-Admits :
    (q : Submission) (bot target : Option Fingerprint) (s : Impl)
    → length s.routes ≤ 2
    → is_ready s.status ≡ true
    → Admits q s (admit q bot target s).0
unfolding admit
admit-Admits q none target s l r = inl refl
admit-Admits q (some bot) none s l r = inl refl
admit-Admits q (some bot) (some target) s l r =
    let route = new_route q bot target s.request_ttl in
    let grown = record s { routes = emplace_route route s.routes } in
    let other = not bot.active || not target.active || not (bytes_eq target.name q.target_name) in
    let P : Impl × SubmitResult → Type 0 = λ t. Admits q s t.0 in
    if-keeps P other (s, locally_rejected)
      (if not (is_canonical_uuid_v4 q.uuid) then (s, locally_rejected) else (grown, admitted))
      (λ _. inl refl)
      (λ _.
        if-keeps P (not (is_canonical_uuid_v4 q.uuid)) (s, locally_rejected) (grown, admitted)
          (λ _. inl refl) (λ _. inr (bot, target, l, r, refl)))

admissible : (ready : Bool) (n : ℕ) → (not ready || leb 3 n) ≡ false → (n ≤ 2) × (ready ≡ true)
admissible ready n h = ground arith

pub try_submit-Admits :
    (early : Status) (q : Submission) (s : Impl) → Admits q s (try_submit early q s).0
unfolding try_submit
try_submit-Admits early q s =
    let P : Impl × SubmitResult → Type 0 = λ t. Admits q s t.0 in
    let full = not (is_ready s.status) || leb outstanding_route_capacity (length s.routes) in
    let last = admit q (find_session q.bot s.sessions) (find_session q.target s.sessions) s in
    let early_no = not (is_ready early) || not (is_plausible q) in
    if-keeps P (is_exhausted early) (s, locally_rejected_ledger_exhausted)
      (if early_no then (s, locally_rejected) else if full then (s, refusal s.status) else last)
      (λ _. inl refl)
      (λ _.
        if-keeps P early_no (s, locally_rejected) (if full then (s, refusal s.status) else last)
          (λ _. inl refl)
          (λ _.
            if-keeps P full (s, refusal s.status) last (λ _. inl refl)
              (λ e.
                let a = admissible (is_ready s.status) (length s.routes) e in
                admit-Admits q (find_session q.bot s.sessions) (find_session q.target s.sessions) s
                  a.0 a.1)))

-- An awaited request is in the table, so that a new one is another.
known_other :
    (id uuid : Bytes) (rs : Routes) {phase : Phase}
    → phase_at id rs ≡ some phase
    → phase_at uuid rs ≡ none
    → bytes_eq uuid id ≡ false
known_other id uuid rs p n = elim (Bool-cases (bytes_eq uuid id)) [
  | inr e ↦ e
  | inl e ↦ (let same = ap (λ t. phase_at t rs) ((bytes_eq_iff uuid id).0 e) in absurd (cc))
]

pub Awaits-emplace :
    (kind : CommandKind) (id : Bytes) (r : Route) (s : Impl)
    → phase_at r.request_id s.routes ≡ none
    → Awaits kind id s.routes
    → Awaits kind id (emplace_route r s.routes)
Awaits-emplace submit id r s n a =
    phase_at-emplace id r s n (known_other id r.request_id s.routes a n) ∙ a
Awaits-emplace status id r s n a =
    phase_at-emplace id r s n (known_other id r.request_id s.routes a n) ∙ a
Awaits-emplace consume id r s n a =
    phase_at-emplace id r s n (known_other id r.request_id s.routes a n) ∙ a
Awaits-emplace metrics id r s n a = a
Awaits-emplace shutdown id r s n a = tt
Awaits-emplace nothing id r s n a = tt
