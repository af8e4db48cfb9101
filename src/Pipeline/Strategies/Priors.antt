-- ===== src/Pipeline/Strategies/Priors.antt =====
-- What a bot is given back is what it had before the brain first took the strategy over.
use twow_repo.Base.{
  and-true, ℕ, Bool, true, false, ◌==◌, List, [], ◌∷◌, Option, none, some, any, find, filter,
  if◌then◌else◌, Bytes, bytes_eq, bytes_eq_iff, ◌≡◌, refl, ap, ◌∙◌, All, All-filter, find-All,
  find-some,
}
use twow_repo.Wire.Types.{StrategyChange}
use twow_repo.Pipeline.State.{OwnedStrategy}
use twow_repo.Pipeline.Directives.{Engine, BotState, StrategyTarget, bot_state_from_wire_name}
use twow_repo.Pipeline.Strategies.{
  is_same, first_prior, prior_of, take_over, next_owned, handed_back, can_be_owned, keep_known,
}

-- What the engines said before the brain touched them.
abbrev pub Original : Type 0
Original = Bytes → BotState → Bool

abbrev pub IsHonest : Original → OwnedStrategy → Type 0
IsHonest original o = o.prior ≡ original o.name (bot_state_from_wire_name o.state)

abbrev pub RestoresOriginal : Original → StrategyTarget → Type 0
RestoresOriginal original t = t.want ≡ original t.name (bot_state_from_wire_name t.state)

-- A strategy that the brain does not own is as it was.
abbrev pub IsUntouched : Engine → Original → List OwnedStrategy → Type 0
IsUntouched engine original owned =
    (name state : Bytes)
    → find (is_same name state) owned ≡ none
    → engine.has_strategy name (bot_state_from_wire_name state)
      ≡ original name (bot_state_from_wire_name state)

same_original :
    (original : Original) (name state : Bytes) (o : OwnedStrategy)
    → is_same name state o ≡ true
    → IsHonest original o
    → o.prior ≡ original name (bot_state_from_wire_name state)
same_original original name state o h honest =
    let both = and-true (bytes_eq o.name name) (bytes_eq o.state state) h in
    honest
    ∙ (ap (λ n. original n (bot_state_from_wire_name o.state)) ((bytes_eq_iff o.name name).0 both.0)
        ∙ ap (λ t. original name (bot_state_from_wire_name t))
            ((bytes_eq_iff o.state state).0 both.1))

take_over-IsHonest :
    (engine : Engine) (original : Original) (owned : List OwnedStrategy) (change : StrategyChange)
    → All (IsHonest original) owned
    → IsUntouched engine original owned
    → IsHonest original (take_over engine owned change)
unfolding take_over prior_of first_prior
take_over-IsHonest engine original owned change h free =
    go (find (is_same change.name change.state) owned) refl
  where
    go :
        (f : Option OwnedStrategy)
        → find (is_same change.name change.state) owned ≡ f
        → first_prior f (engine.has_strategy change.name (bot_state_from_wire_name change.state))
          ≡ original change.name (bot_state_from_wire_name change.state)
    go none e = free change.name change.state e
    go (some o) e =
        same_original original change.name change.state o
          (find-some (is_same change.name change.state) owned o e)
          (find-All (IsHonest original) (is_same change.name change.state) owned o h e)

next_owned-IsHonest :
    (engine : Engine) (original : Original) (owned : List OwnedStrategy)
    (changes : List StrategyChange)
    → All (IsHonest original) owned
    → IsUntouched engine original owned
    → All (IsHonest original) (next_owned engine owned changes)
unfolding next_owned
next_owned-IsHonest engine original owned [] h free = tt
next_owned-IsHonest engine original owned (c ∷ cs) h free = (
  take_over-IsHonest engine original owned c h free,
  next_owned-IsHonest engine original owned cs h free,
)

handed_back-restores :
    (original : Original) (next owned : List OwnedStrategy)
    → All (IsHonest original) owned
    → All (RestoresOriginal original) (handed_back next owned)
unfolding handed_back
handed_back-restores original next [] h = tt
handed_back-restores original next (o ∷ os) h =
    go (any (is_same o.name o.state) next) (handed_back-restores original next os h.1)
  where
    go :
        (b : Bool)
        → All (RestoresOriginal original) (handed_back next os)
        → All (RestoresOriginal original) (
            if b
            then handed_back next os
            else record { name = o.name; state = o.state; want = o.prior } ∷ handed_back next os)
    go true r = r
    go false r = (h.0, r)

keep_known-IsHonest :
    (engine : Engine) (original : Original) (unknown : ℕ) (next : List OwnedStrategy)
    → All (IsHonest original) next
    → All (IsHonest original) (keep_known engine unknown next)
unfolding keep_known
keep_known-IsHonest engine original unknown next h = go (unknown == 0)
  where
    go :
        (b : Bool) → All (IsHonest original) (if b then next else filter (can_be_owned engine) next)
    go true = h
    go false = All-filter (IsHonest original) (can_be_owned engine) next h

-- If every owned strategy's recorded prior is what the engine said before the brain, and what is
-- not owned is still so, then after a cycle the strategies that are kept have such priors again,
-- however often they were asserted before, and each one that goes back goes back to that value.
pub reconcile-gives_back :
    (engine : Engine) (original : Original) (owned : List OwnedStrategy)
    (changes : List StrategyChange) (unknown : ℕ)
    → All (IsHonest original) owned
    → IsUntouched engine original owned
    → All (IsHonest original) (keep_known engine unknown (next_owned engine owned changes))
      × All (RestoresOriginal original) (handed_back (next_owned engine owned changes) owned)
reconcile-gives_back engine original owned changes unknown h free = (
  keep_known-IsHonest engine original unknown (next_owned engine owned changes)
      (next_owned-IsHonest engine original owned changes h free),
  handed_back-restores original (next_owned engine owned changes) owned h,
)
