-- ===== src/Pipeline/State/Store.antt =====
-- How many bots of `g_states` pass a test, and what a write or an erasure does to the number.
use twow_repo.Base.{
  ℕ, ◌+◌, Bool, true, false, [], ◌∷◌, Option, none, some, ◌==◌, if◌then◌else◌, ◌≡◌, refl, arith,
}
pub use twow_repo.Base.{if-keeps}
use twow_repo.Pipeline.State.{BotPlanState, States, if_found, find_state, put_state, erase_state}

abbrev pub bit : Bool → ℕ
bit true = 1
bit false = 0

module _ (p : BotPlanState → Bool) where
  abbrev pub count_states : States → ℕ
  count_states [] = 0
  count_states ((k, s) ∷ rest) = bit (p s) + count_states rest

  -- What the bot itself adds to the number.
  abbrev pub bit_at : Option BotPlanState → ℕ
  bit_at none = 0
  bit_at (some s) = bit (p s)

  pub count_states-put_state :
      (raw : ℕ) (new : BotPlanState) (states : States)
      → count_states (put_state raw new states) + bit_at (find_state raw states)
        ≡ count_states states + bit (p new)
  unfolding find_state put_state
  count_states-put_state raw new [] = omega arith
  count_states-put_state raw new ((k, s) ∷ rest) =
      ground (arith, count_states-put_state raw new rest)

  pub count_states-erase_state :
      (raw : ℕ) (states : States)
      → count_states (erase_state raw states) + bit_at (find_state raw states) ≡ count_states states
  unfolding find_state erase_state
  count_states-erase_state raw [] = omega arith
  count_states-erase_state raw ((k, s) ∷ rest) = ground (arith, count_states-erase_state raw rest)

pub find_state-put_state :
    (raw : ℕ) (new : BotPlanState) (states : States)
    → find_state raw (put_state raw new states) ≡ some new
unfolding find_state put_state
find_state-put_state raw new [] = ground arith
find_state-put_state raw new ((k, s) ∷ rest) = ground (arith, find_state-put_state raw new rest)

pub find_state-put_state_at :
    (key raw : ℕ) (new : BotPlanState) (states : States)
    → find_state key (put_state raw new states)
      ≡ (if key == raw then some new else find_state key states)
unfolding find_state put_state
find_state-put_state_at key raw new [] = ground arith
find_state-put_state_at key raw new ((k, s) ∷ rest) =
    ground (arith, find_state-put_state_at key raw new rest)

pub if_found-keeps {ℓ κ} :
    {A : Type ℓ} (P : A → Type κ) (o : Option BotPlanState) (missing : A) (f : BotPlanState → A)
    → P missing
    → ((s : BotPlanState) → o ≡ some s → P (f s))
    → P (if_found o missing f)
unfolding if_found
if_found-keeps P none missing f h k = h
if_found-keeps P (some s) missing f h k = k s refl
