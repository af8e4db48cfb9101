-- ===== src/Bridge/Runs/Lifecycle/Turns.antt =====
-- The writes to the table as turns of the automaton.
use twow_repo.Base.{
  true, Option, none, some, ◌≡◌, refl, sym, ap, subst, ◌∙◌, inl, inr, arith, if◌then◌else◌,
  Bool-cases, none_ne_some, Bytes, bytes_eq, bytes_eq_iff, bytes_eq_refl,
}
use twow_repo.Bridge.State.{
  Phase, pending_submit, Route, Routes, Impl, find_route, set_phase, emplace_route,
}
use twow_repo.Bridge.State.Tables.{find_route-emplace_route}
use twow_repo.Bridge.Runs.Invariant.{
  phase_at, phase_found, Shrinks, phase_at-set_other, phase_at-set_same,
}
use twow_repo.Bridge.Runs.Admitted.{phase_at-emplace, not_found}
use twow_repo.Bridge.Runs.Lifecycle.{may_turn, advances, next_phase, OneTurn, Advances}

stay : (o : Option Phase) → may_turn o o ≡ true
stay none = refl
stay (some p) = ground arith

leave : (o : Option Phase) → may_turn o none ≡ true
leave none = refl
leave (some p) = refl

rest : (o : Option Phase) → advances o o ≡ true
rest none = refl
rest (some p) = ground arith

pub Shrinks-OneTurn : (rs rs' : Routes) → Shrinks rs rs' → OneTurn rs rs'
Shrinks-OneTurn rs rs' h id = elim (h id) [
  | inl e ↦ subst (λ t. may_turn (phase_at id rs) t ≡ true) (sym e) (leave (phase_at id rs))
  | inr e ↦ subst (λ t. may_turn (phase_at id rs) t ≡ true) (sym e) (stay (phase_at id rs))
]

pub same-OneTurn : (rs : Routes) → OneTurn rs rs
same-OneTurn rs id = stay (phase_at id rs)

pub same-Advances : (rs : Routes) → Advances rs rs
same-Advances rs id = rest (phase_at id rs)

pub Advances-OneTurn : (rs rs' : Routes) → Advances rs rs' → OneTurn rs rs'
Advances-OneTurn rs rs' h id = turn (phase_at id rs) (phase_at id rs') (h id)
  where
    turn : (a b : Option Phase) → advances a b ≡ true → may_turn a b ≡ true
    turn none none h = refl
    turn none (some p) h = absurd (cc)
    turn (some p) none h = refl
    turn (some p) (some q) h = h

-- Requests that go, and then an advance of those that are left.
pub Shrinks-Advances-OneTurn :
    (rs rs' rs'' : Routes) → Shrinks rs rs' → Advances rs' rs'' → OneTurn rs rs''
Shrinks-Advances-OneTurn rs rs' rs'' h k id = elim (h id) [
  | inl e ↦ gone (phase_at id rs) (phase_at id rs') (phase_at id rs'') e (k id)
  | inr e ↦ subst (λ t. may_turn t (phase_at id rs'') ≡ true) e (Advances-OneTurn rs' rs'' k id)
]
  where
    gone : (a b c : Option Phase) → b ≡ none → advances b c ≡ true → may_turn a c ≡ true
    gone a none none e k = leave a
    gone a none (some p) e k = absurd (cc)
    gone a (some q) c e k = absurd (none_ne_some (sym e))

pub set_phase-Advances :
    (id : Bytes) (phase old : Phase) (rs : Routes)
    → phase_at id rs ≡ some old
    → next_phase old phase ≡ true
    → Advances rs (set_phase id phase rs)
set_phase-Advances id phase old rs e n key = elim (Bool-cases (bytes_eq id key)) [
  | inr f ↦
      subst (λ t. advances (phase_at key rs) t ≡ true) (sym (phase_at-set_other key id phase rs f))
        (rest (phase_at key rs))
  | inl f ↦
      subst (λ k. advances (phase_at k rs) (phase_at k (set_phase id phase rs)) ≡ true)
        ((bytes_eq_iff id key).0 f)
        (turned (phase_at id rs) (phase_at id (set_phase id phase rs)) e
          (phase_at-set_same id phase old rs e))
]
  where
    turned : (a b : Option Phase) → a ≡ some old → b ≡ some phase → advances a b ≡ true
    turned a b p q =
        subst (λ t. advances t b ≡ true) (sym p)
          (subst (λ t. advances (some old) t ≡ true) (sym q) n)

pub set_phase-OneTurn :
    (id : Bytes) (phase old : Phase) (rs : Routes)
    → phase_at id rs ≡ some old
    → next_phase old phase ≡ true
    → OneTurn rs (set_phase id phase rs)
set_phase-OneTurn id phase old rs e n =
    Advances-OneTurn rs (set_phase id phase rs) (set_phase-Advances id phase old rs e n)

phase_at-emplaced :
    (r : Route) (s : Impl)
    → phase_at r.request_id s.routes ≡ none
    → phase_at r.request_id (emplace_route r s.routes) ≡ some r.phase
phase_at-emplaced r s e =
    ap phase_found (
      find_route-emplace_route r.request_id r s.routes
        (not_found (find_route r.request_id s.routes) e))
    ∙ ap (λ b. phase_found (if b then some r else find_route r.request_id s.routes))
        (bytes_eq_refl r.request_id)

pub emplace-OneTurn :
    (r : Route) (s : Impl)
    → phase_at r.request_id s.routes ≡ none
    → r.phase ≡ pending_submit
    → OneTurn s.routes (emplace_route r s.routes)
emplace-OneTurn r s e f key = elim (Bool-cases (bytes_eq r.request_id key)) [
  | inr n ↦
      subst (λ t. may_turn (phase_at key s.routes) t ≡ true) (sym (phase_at-emplace key r s e n))
        (stay (phase_at key s.routes))
  | inl n ↦
      subst (λ k. may_turn (phase_at k s.routes) (phase_at k (emplace_route r s.routes)) ≡ true)
        ((bytes_eq_iff r.request_id key).0 n)
        (entered (phase_at r.request_id s.routes) (phase_at r.request_id (emplace_route r s.routes))
          e (phase_at-emplaced r s e ∙ ap some f))
]
  where
    entered : (a b : Option Phase) → a ≡ none → b ≡ some pending_submit → may_turn a b ≡ true
    entered a b p q =
        subst (λ t. may_turn t b ≡ true) (sym p) (subst (λ t. may_turn none t ≡ true) (sym q) refl)
