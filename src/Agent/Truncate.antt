-- ===== src/Agent/Truncate.antt =====
-- `truncateMiddle` and its callers in internal/agent/runtime.go.
pub mod Length
use ops_terminator.Base.{
  ℕ, ◌+◌, ◌-◌, ◌/◌, Bool, List, [], ◌∷◌, ◌++◌, ◌||◌, ◌==◌, nat_eq, leb, ltb, if◌then◌else◌,
}
use ops_terminator.Base.Text.{Text, bytes, length, take, drop, trim_space}
use ops_terminator.Base.Text.Decimal.{decimal}

-- The text that stands for the bytes left out.
unfoldable pub notice : ℕ → Text
notice omitted = bytes " ... [truncated " ++ (decimal omitted ++ bytes " chars] ... ")

-- `if n < 1 { n = 1 }`.
abbrev pub at_least_one : ℕ → ℕ
at_least_one n = if ltb n 1 then 1 else n

-- The branch that keeps a head and a tail. A negative difference of the source is 0 here, and both
-- are raised to 1.
unfoldable pub keep_ends : Text → ℕ → Text → Text
keep_ends value limit note =
    let head = (limit - length note) / 2 in
    let tail = limit - length note - head in
    take (at_least_one head) value ++ (note ++ drop (length value - at_least_one tail) value)

-- The text once its blanks are trimmed.
unfoldable pub truncate_trimmed : Text → ℕ → Text
truncate_trimmed value limit =
    if limit == 0 || leb (length value) limit
    then value
    else if leb limit 24
    then take limit value
    else keep_ends value limit (notice (length value - limit))

-- `truncateMiddle`, for a limit that is not negative.
unfoldable pub truncate_middle : Text → ℕ → Text
unfolding truncate_trimmed
truncate_middle value limit = truncate_trimmed (trim_space value) limit

abbrev pub max_tool_history_entry_length : ℕ
max_tool_history_entry_length = 320

-- `formatToolHistoryEntry`.
unfoldable pub format_tool_history_entry : Text → Text → Text
format_tool_history_entry tool_name text =
    tool_name ++ (bytes ": " ++ truncate_middle (trim_space text) max_tool_history_entry_length)
