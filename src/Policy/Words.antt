-- ===== src/Policy/Words.antt =====
-- `splitShellWords` and `extractCommand` of internal/policy/engine.go: a segment as words with their
-- quotes taken off, and the command behind the leading assignments.
use ops_terminator.Base.{
  ℕ, Bool, true, false, not, ◌&&◌, ◌||◌, List, [], ◌∷◌, ◌++◌, Result, ok, err, ◌>>=◌, ◌==◌, nat_eq,
  text_eq, leb, if◌then◌else◌,
}
use ops_terminator.Base.Text.{Text, is_space, to_lower}
use ops_terminator.Policy.Segments.{
  ScanState, normal, single_quote, double_quote, SplitError, unterminated_escape,
  unterminated_quotes,
}

-- The local variables of the loop.
pub record WordScan : Type 0 where
  pub state : ScanState
  pub current : Text
  pub words : List Text

abbrev pub scan_at : ScanState → Text → List Text → WordScan
scan_at m cur ws = record { state = m; current = cur; words = ws }

abbrev pub write : WordScan → ℕ → WordScan
write s c = record s { current = s.current ++ (c ∷ []) }

unfoldable pub flush : WordScan → WordScan
flush s =
    if s.current == [] then s else record s { words = s.words ++ (s.current ∷ []); current = [] }

abbrev pub Step : Type 0
Step = Result SplitError (WordScan × Bool)

escaped_byte : Text → WordScan → Step
escaped_byte [] s = err unterminated_escape
escaped_byte (d ∷ _) s = ok (write s d, true)

unfoldable pub step_in : ScanState → WordScan → ℕ → Text → Step
unfolding escaped_byte flush
step_in single_quote s c rest =
    ok (if c == b'\'' then record s { state = normal } else write s c, false)
step_in double_quote s c rest =
    if c == b'\\'
    then escaped_byte rest s
    else ok (if c == b'"' then record s { state = normal } else write s c, false)
step_in normal s c rest =
    if is_space c
    then ok (flush s, false)
    else if c == b'\''
    then ok (record s { state = single_quote }, false)
    else if c == b'"'
    then ok (record s { state = double_quote }, false)
    else if c == b'\\'
    then escaped_byte rest s
    else ok (write s c, false)

unfoldable pub scan : Bool → WordScan → Text → Result SplitError WordScan
scan skip s [] = ok s
scan true s (c ∷ rest) = scan false s rest
scan false s (c ∷ rest) = do (s', skip) ← step_in s.state s c rest; scan skip s' rest

unfoldable pub finish : ScanState → WordScan → Result SplitError (List Text)
unfolding flush
finish normal s = ok (flush s).words
finish _ s = err unterminated_quotes

abbrev pub start : WordScan
start = record { state = normal; current = []; words = [] }

-- `splitShellWords`.
unfoldable pub split_shell_words : Text → Result SplitError (List Text)
unfolding scan step_in finish
split_shell_words segment = do s ← scan false start segment; finish s.state s

name_start : ℕ → Bool
name_start c = leb b'A' c && leb c b'Z' || leb b'a' c && leb c b'z' || c == b'_'

name_byte : ℕ → Bool
unfolding name_start
name_byte c = name_start c || leb b'0' c && leb c b'9'

-- `.*$`: the rest of the text has no line break.
no_newline : Text → Bool
no_newline [] = true
no_newline (c ∷ s) = not (c == b'\n') && no_newline s

-- `[A-Za-z0-9_]*=.*$`.
after_name : Text → Bool
unfolding name_byte no_newline
after_name [] = false
after_name (c ∷ s) = if c == b'=' then no_newline s else name_byte c && after_name s

-- `assignmentPattern`, ^[A-Za-z_][A-Za-z0-9_]*=.*$.
unfoldable pub is_assignment : Text → Bool
unfolding name_start after_name
is_assignment [] = false
is_assignment (c ∷ s) = name_start c && after_name s

-- `extractCommand`.
unfoldable pub extract_command : List Text → Text × List Text
extract_command [] = ([], [])
extract_command (w ∷ ws) = if is_assignment w then extract_command ws else (to_lower w, ws)
