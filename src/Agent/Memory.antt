-- ===== src/Agent/Memory.antt =====
-- `selectRecentTurns` and `selectTurnsToCompact` of internal/agent/memory.go.
pub mod Partition
use ops_terminator.Base.{
  ℕ, zero, suc, ◌+◌, ◌-◌, Bool, List, [], ◌∷◌, ◌++◌, ◌||◌, ◌==◌, nat_eq, text_eq, leb, ltb,
  if◌then◌else◌,
}
use ops_terminator.Base.Text.{Text}

-- The fields of `Turn` that the selections look at, with the rest as one value.
pub record Turn (A : Type 0) : Type 0 where
  pub id : Text
  pub content : A

module _ {A : Type 0} where
  abbrev pub count_turns : List (Turn A) → ℕ
  count_turns [] = 0
  count_turns (_ ∷ turns) = suc (count_turns turns)

  -- `turns[from:]`.
  abbrev pub turns_from : ℕ → List (Turn A) → List (Turn A)
  turns_from zero turns = turns
  turns_from (suc n) [] = []
  turns_from (suc n) (_ ∷ turns) = turns_from n turns

  -- `turns[:to]`.
  abbrev pub turns_to : ℕ → List (Turn A) → List (Turn A)
  turns_to zero turns = []
  turns_to (suc n) [] = []
  turns_to (suc n) (t ∷ turns) = t ∷ turns_to n turns

  -- `selectRecentTurns`, for a number that is not negative.
  unfoldable pub select_recent_turns : List (Turn A) → ℕ → List (Turn A)
  select_recent_turns turns recent =
      if recent == 0 || leb (count_turns turns) recent
      then turns
      else turns_from (count_turns turns - recent) turns

  -- The loop of `selectTurnsToCompact`: the index behind the first turn with the id, from `index`;
  -- 0 if there is none.
  unfoldable pub index_behind : Text → ℕ → List (Turn A) → ℕ
  index_behind id index [] = 0
  index_behind id index (t ∷ turns) =
      if t.id == id then suc index else index_behind id (suc index) turns

  -- `start`.
  unfoldable pub compact_start : List (Turn A) → Text → ℕ
  compact_start turns until = if until == [] then 0 else index_behind until 0 turns

  -- `selectTurnsToCompact`. `keepStart <= 0` is that the turns are no more than the recent ones.
  unfoldable pub select_turns_to_compact : List (Turn A) → Text → ℕ → List (Turn A)
  select_turns_to_compact turns until recent =
      if leb (count_turns turns) recent
      then []
      else (let keep_start = count_turns turns - recent in
          let start = compact_start turns until in
          if leb keep_start start then [] else turns_from start (turns_to keep_start turns))
