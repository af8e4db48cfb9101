-- ===== src/Pipeline/Directives.antt =====
-- The diff of `ReconcileStrategies`: what has to move, and the directives that move it.
use twow_repo.Base.{
  ℕ, ◌+◌, Bool, true, false, not, ◌&&◌, List, [], ◌∷◌, ◌++◌, is_empty, if◌then◌else◌, Bytes, codes,
  bytes_eq,
}
use twow_repo.Wire.Vocabulary.{bot_state_combat, bot_state_non_combat, bot_state_dead}

pub data BotState : Type 0 where
  combat : BotState
  non_combat : BotState
  dead : BotState
  reaction : BotState

unfoldable pub bot_state_from_wire_name : Bytes → BotState
bot_state_from_wire_name name =
    if bytes_eq name bot_state_combat
    then combat
    else if bytes_eq name bot_state_non_combat
    then non_combat
    else if bytes_eq name bot_state_dead
    then dead
    else reaction

-- What the bot's AI answers: `HasStrategy`, and whether its context has a strategy of the name.
pub record Engine : Type 0 where
  pub has_strategy : Bytes → BotState → Bool
  pub is_registered : Bytes → Bool

pub record StrategyTarget : Type 0 where
  pub name : Bytes
  pub state : Bytes
  pub want : Bool

-- `directives`, one text for a bot state, `applied` and `unknown`.
pub record Diff : Type 0 where
  pub directives : BotState → Bytes
  pub applied : Bytes
  pub unknown : ℕ

abbrev pub same_state : BotState → BotState → Bool
same_state combat combat = true
same_state non_combat non_combat = true
same_state dead dead = true
same_state reaction reaction = true
same_state _ _ = false

abbrev pub sign : Bool → Bytes
sign want = if want then codes "+" else codes "-"

abbrev pub joined : Bytes → Bytes → Bytes → Bytes
joined separator text more = if is_empty text then more else text ++ (separator ++ more)

-- One target that is not where it should be, and can be moved there.
unfoldable pub move : StrategyTarget → Diff → Diff
move t d = record d {
  directives = λ state.
      if same_state state (bot_state_from_wire_name t.state)
      then joined (codes ",") (d.directives state) (sign t.want ++ t.name)
      else d.directives state;
  applied =
      joined (codes ", ") d.applied
        (sign t.want ++ (t.name ++ (codes " (" ++ (t.state ++ codes ")"))));
}

unfoldable pub same_bool : Bool → Bool → Bool
same_bool true b = b
same_bool false b = not b

unfoldable pub diff_one : Engine → StrategyTarget → Diff → Diff
unfolding move same_bool
diff_one engine t d =
    if same_bool (engine.has_strategy t.name (bot_state_from_wire_name t.state)) t.want
    then d
    else if t.want && not (engine.is_registered t.name)
    then record d { unknown = d.unknown + 1 }
    else move t d

unfoldable pub diff_onto : Engine → List StrategyTarget → Diff → Diff
unfolding diff_one
diff_onto engine [] d = d
diff_onto engine (t ∷ ts) d = diff_onto engine ts (diff_one engine t d)

abbrev pub no_diff : Diff
no_diff = record { directives = λ state. []; applied = []; unknown = 0 }

unfoldable pub diff_all : Engine → List StrategyTarget → Diff
unfolding diff_onto
diff_all engine ts = diff_onto engine ts no_diff
