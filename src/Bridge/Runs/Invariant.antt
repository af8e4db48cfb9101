-- ===== src/Bridge/Runs/Invariant.antt =====
-- What holds of the client between any two steps.
use twow_repo.Base.{
  ◌≤◌, Bool, true, false, ◌||◌, List, [], ◌∷◌, Option, none, some, ◌≡◌, ◌≢◌, refl, ap, ◌∙◌, arith,
  ◌⊎◌, inl, inr, if◌then◌else◌, Bool-cases, Bytes, bytes_eq, bytes_eq_iff, bytes_eq_refl, length,
  filter, All,
}
use twow_repo.Bridge.Messages.Dispositions.{
  CommandKind, nothing, submit, status, consume, metrics, shutdown,
}
use twow_repo.Bridge.State.{
  is_ready, is_exhausted, Phase, pending_submit, accepted, consuming, delivery_pending, Route,
  Routes, Delivery, Impl, find_route, erase_route, set_phase,
}
use twow_repo.Bridge.State.Tables.{
  Ascending, keep, find_route-filter, find_route-erase_route, rephased, find_route-set_phase,
}
use twow_repo.Bridge.Worker.{Bridge}

abbrev pub phase_found : Option Route → Option Phase
phase_found none = none
phase_found (some r) = some r.phase

-- Where a request stands: the table as it is seen from outside.
abbrev pub phase_at : Bytes → Routes → Option Phase
phase_at id rs = phase_found (find_route id rs)

-- The request that an answer is awaited for.
abbrev pub Awaits : CommandKind → Bytes → Routes → Type 0
Awaits submit id rs = phase_at id rs ≡ some pending_submit
Awaits status id rs = phase_at id rs ≡ some accepted
Awaits consume id rs = phase_at id rs ≡ some consuming
Awaits metrics id rs = ⊥
Awaits shutdown id rs = Unit {0}
Awaits nothing id rs = Unit {0}

-- A delivery's request is no longer in the table, or waits for the delivery.
abbrev pub IsSettled : Routes → Delivery → Type 0
IsSettled rs d =
    (phase_at d.route.request_id rs ≡ none)
    ⊎ (phase_at d.route.request_id rs ≡ some delivery_pending)

-- The tables, with the deliveries that the world's thread holds.
pub record Kept (s : Impl) (held : List Delivery) : Type 0 where
  pub ascending : Ascending s.routes
  pub few : length s.routes ≤ 3
  pub few_deliveries : length s.deliveries ≤ 3
  pub settled : All (IsSettled s.routes) s.deliveries
  pub settled_held : All (IsSettled s.routes) held

abbrev pub is_open : Impl → Bool
is_open s = is_ready s.status || is_exhausted s.status

pub record IsSound (b : Bridge) (held : List Delivery) : Type 0 where
  pub tables : Kept b.impl held
  pub up : is_open b.impl ≡ true → b.is_up ≡ true
  pub awaited : Awaits b.pending_kind b.pending_request b.impl.routes

-- Requests go, and none changes otherwise.
abbrev pub Shrinks : Routes → Routes → Type 0
Shrinks rs rs' = (id : Bytes) → (phase_at id rs' ≡ none) ⊎ (phase_at id rs' ≡ phase_at id rs)

keep-shrinks :
    (p : Route → Bool) (o : Option Route)
    → (phase_found (keep p o) ≡ none) ⊎ (phase_found (keep p o) ≡ phase_found o)
keep-shrinks p none = inl refl
keep-shrinks p (some r) = ground arith

pub filter-Shrinks : (p : Route → Bool) (rs : Routes) → Ascending rs → Shrinks rs (filter p rs)
filter-Shrinks p rs h id = rw (find_route-filter p id rs h) (keep-shrinks p (find_route id rs))

pub erase-Shrinks : (id : Bytes) (rs : Routes) → Shrinks rs (erase_route id rs)
erase-Shrinks id rs key =
    rw (find_route-erase_route key id rs) (gone (bytes_eq id key) (find_route key rs))
  where
    gone :
        (b : Bool) (o : Option Route)
        → (phase_found (if b then none else o) ≡ none)
          ⊎ (phase_found (if b then none else o) ≡ phase_found o)
    gone true o = inl refl
    gone false o = inr refl

IsSettled-Shrinks :
    (rs rs' : Routes) (d : Delivery) → Shrinks rs rs' → IsSettled rs d → IsSettled rs' d
IsSettled-Shrinks rs rs' d h s = elim (h d.route.request_id) [
  | inl e ↦ inl e
  | inr e ↦ elim s [ inl f ↦ inl (e ∙ f) | inr f ↦ inr (e ∙ f) ]
]

pub AllSettled-Shrinks :
    (rs rs' : Routes) (ds : List Delivery)
    → Shrinks rs rs'
    → All (IsSettled rs) ds
    → All (IsSettled rs') ds
AllSettled-Shrinks rs rs' [] h s = tt
AllSettled-Shrinks rs rs' (d ∷ ds) h s =
    (IsSettled-Shrinks rs rs' d h s.0, AllSettled-Shrinks rs rs' ds h s.1)

-- What an erasure and a write do to where a request stands.
pub phase_at-erase :
    (key id : Bytes) (rs : Routes)
    → phase_at key (erase_route id rs) ≡ (if bytes_eq id key then none else phase_at key rs)
phase_at-erase key id rs = rw (find_route-erase_route key id rs) (ground arith)

pub phase_at-set_other :
    (key id : Bytes) (phase : Phase) (rs : Routes)
    → bytes_eq id key ≡ false
    → phase_at key (set_phase id phase rs) ≡ phase_at key rs
phase_at-set_other key id phase rs h =
    rw (find_route-set_phase key id phase rs, h) (other (find_route key rs))
  where
    other : (o : Option Route) → phase_found (rephased false phase o) ≡ phase_found o
    other none = refl
    other (some r) = refl

pub phase_at-set_same :
    (id : Bytes) (phase old : Phase) (rs : Routes)
    → phase_at id rs ≡ some old
    → phase_at id (set_phase id phase rs) ≡ some phase
phase_at-set_same id phase old rs h =
    rw (find_route-set_phase id id phase rs, bytes_eq_refl id) (same (find_route id rs) h)
  where
    same :
        (o : Option Route)
        → phase_found o ≡ some old
        → phase_found (rephased true phase o) ≡ some phase
    same none k = cc
    same (some r) k = refl

-- A request in a phase that no delivery waits in is not that of a delivery.
abbrev pub Busy : Routes → Bytes → Type 0
Busy rs id = (phase_at id rs ≢ none) × (phase_at id rs ≢ some delivery_pending)

pub Busy-other :
    (rs : Routes) (id : Bytes) (d : Delivery)
    → Busy rs id
    → IsSettled rs d
    → bytes_eq id d.route.request_id ≡ false
Busy-other rs id d b s = elim (Bool-cases (bytes_eq id d.route.request_id)) [
  | inr e ↦ e
  | inl e ↦
      let same = (bytes_eq_iff id d.route.request_id).0 e in
      elim s [
        | inl f ↦ absurd (b.0 (ap (λ t. phase_at t rs) same ∙ f))
        | inr f ↦ absurd (b.1 (ap (λ t. phase_at t rs) same ∙ f))
      ]
]

pub AllSettled-set_phase :
    (rs : Routes) (id : Bytes) (phase : Phase) (ds : List Delivery)
    → Busy rs id
    → All (IsSettled rs) ds
    → All (IsSettled (set_phase id phase rs)) ds
AllSettled-set_phase rs id phase [] b s = tt
AllSettled-set_phase rs id phase (d ∷ ds) b s =
    let same = phase_at-set_other d.route.request_id id phase rs (Busy-other rs id d b s.0) in
    (
      elim s.0 [ inl f ↦ inl (same ∙ f) | inr f ↦ inr (same ∙ f) ],
      AllSettled-set_phase rs id phase ds b s.1,
    )

-- An awaited request is busy, and another one's retirement leaves it.
pub Awaits-Busy :
    (kind : CommandKind) (id : Bytes) (rs : Routes) (old : Phase)
    → phase_at id rs ≡ some old
    → old ≢ delivery_pending
    → Busy rs id
Awaits-Busy kind id rs old h n = ((λ e. cc), (λ e. n (cc)))
