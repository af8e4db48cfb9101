-- ===== src/Bridge/Runs/Lifecycle.antt =====
-- The table of requests refines a small automaton for each request.
pub mod Turns
pub mod Answers
pub mod Records
pub mod Sending
pub mod Refined
use twow_repo.Base.{Bool, true, false, ◌&&◌, List, [], ◌∷◌, Option, none, some, ◌≡◌, Bytes}
use twow_repo.Bridge.State.{
  Phase, pending_submit, accepted, terminal, consuming, delivery_pending, Routes,
}
use twow_repo.Bridge.Runs.Invariant.{phase_at}

-- The phases that may follow one another.
abbrev pub next_phase : Phase → Phase → Bool
next_phase pending_submit accepted = true
next_phase pending_submit terminal = true
next_phase accepted terminal = true
next_phase terminal consuming = true
next_phase consuming accepted = true
next_phase consuming delivery_pending = true
next_phase pending_submit pending_submit = true
next_phase accepted accepted = true
next_phase terminal terminal = true
next_phase consuming consuming = true
next_phase delivery_pending delivery_pending = true
next_phase _ _ = false

abbrev is_first : Phase → Bool
is_first pending_submit = true
is_first _ = false

-- The automaton: a request enters to be submitted, turns through its phases, and may leave from any.
abbrev pub may_turn : Option Phase → Option Phase → Bool
may_turn none none = true
may_turn none (some p) = is_first p
may_turn (some p) none = true
may_turn (some p) (some q) = next_phase p q

-- The turns but for the first: a request that is not in the table does not come into it.
abbrev pub advances : Option Phase → Option Phase → Bool
advances none none = true
advances none (some p) = false
advances (some p) none = true
advances (some p) (some q) = next_phase p q

-- One turn of each request at most.
abbrev pub OneTurn : Routes → Routes → Type 0
OneTurn rs rs' = (id : Bytes) → may_turn (phase_at id rs) (phase_at id rs') ≡ true

abbrev pub Advances : Routes → Routes → Type 0
Advances rs rs' = (id : Bytes) → advances (phase_at id rs) (phase_at id rs') ≡ true

-- A sequence of places that the automaton can go through, a turn at a time.
unfoldable pub is_path : Option Phase → List (Option Phase) → Bool
is_path a [] = true
is_path a (b ∷ bs) = may_turn a b && is_path b bs
