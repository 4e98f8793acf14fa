-- ===== src/Builtin.antt =====
-- The parts of internal/builtin/registry.go that build and check command lines.
pub mod Quoting
pub mod Tools
pub mod Registry
use ops_terminator.Base.{ℕ, List, [], ◌∷◌, ◌++◌, ◌==◌, nat_eq, if◌then◌else◌}
use ops_terminator.Base.Text.{Text, bytes}

-- `strings.ReplaceAll(value, "'", "'\"'\"'")`.
unfoldable pub replace_quotes : Text → Text
replace_quotes [] = []
replace_quotes (c ∷ s) =
    (if c == b'\'' then b'\'' ∷ b'"' ∷ b'\'' ∷ b'"' ∷ b'\'' ∷ [] else c ∷ []) ++ replace_quotes s

-- `shellQuote`.
unfoldable pub shell_quote : Text → Text
unfolding replace_quotes
shell_quote value = b'\'' ∷ (replace_quotes value ++ (b'\'' ∷ []))
