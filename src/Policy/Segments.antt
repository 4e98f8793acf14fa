-- ===== src/Policy/Segments.antt =====
-- `splitShellSegments` of internal/policy/engine.go: the scanner that cuts a command at its
-- unquoted separators. `i++` inside the loop is a flag that makes the loop pass over a byte.
pub mod Cuts
use ops_terminator.Base.{
  ℕ, Bool, true, false, List, [], ◌∷◌, ◌++◌, reverse, Result, ok, err, ◌>>=◌, ◌==◌, nat_eq, text_eq,
  if◌then◌else◌,
}
use ops_terminator.Base.Text.{Text, is_space, trim_space}

-- `shellScanState`.
pub data ScanState : Type 0 where
  normal single_quote double_quote : ScanState

-- The separator after a segment: "&&", "||", "|", ";" and, after the last one, "".
pub data Separator : Type 0 where
  and_if or_if pipe semicolon end_of_command : Separator

-- The errors of the two scanners, by their messages.
pub data SplitError : Type 0 where
  empty_segment unterminated_escape backticks command_substitution heredoc : SplitError
  process_substitution background_execution unterminated_quotes trailing_separator : SplitError

-- `shellSegment`.
pub record Segment : Type 0 where
  pub raw : Text
  pub separator : Separator
  pub command : Text
  pub args : List Text

-- The local variables of the loop.
pub record Scan : Type 0 where
  pub state : ScanState
  pub current : Text
  pub segments : List Segment

abbrev pub scan_at : ScanState → Text → List Segment → Scan
scan_at m cur segs = record { state = m; current = cur; segments = segs }

abbrev pub segment_of : Text → Separator → Segment
segment_of raw sep = record { raw = raw; separator = sep; command = []; args = [] }

-- `current.WriteByte(ch)`.
abbrev pub write : Scan → ℕ → Scan
write s c = record s { current = s.current ++ (c ∷ []) }

-- `i+1 < len(command) && command[i+1] == b`.
unfoldable pub next_is : Text → ℕ → Bool
next_is [] b = false
next_is (d ∷ _) b = d == b

-- `previousNonSpaceByte`, on the reversed text.
last_non_space : Text → ℕ
last_non_space [] = 0
last_non_space (c ∷ s) = if is_space c then last_non_space s else c

unfoldable pub previous_non_space_byte : Text → ℕ
unfolding last_non_space
previous_non_space_byte s = last_non_space (reverse s)

unfoldable pub flush : Scan → Separator → Result SplitError Scan
flush s sep =
    let raw = trim_space s.current in
    if raw == []
    then err empty_segment
    else ok (record s { segments = s.segments ++ (segment_of raw sep ∷ []); current = [] })

-- A step returns the new variables, and whether the next byte is passed over.
abbrev pub Step : Type 0
Step = Result SplitError (Scan × Bool)

-- `current.WriteByte(command[i+1])` behind the test that there is such a byte.
escaped_byte : Text → Scan → Step
escaped_byte [] s = err unterminated_escape
escaped_byte (d ∷ _) s = ok (write s d, true)

flush_and : Bool → Separator → Scan → Step
unfolding flush
flush_and skip sep s = do s' ← flush s sep; ok (s', skip)

in_double_quote : Scan → ℕ → Text → Step
unfolding escaped_byte
in_double_quote s c rest =
    if c == b'\\'
    then escaped_byte rest (write s c)
    else ok (record (write s c) { state = if c == b'"' then normal else double_quote }, false)

unfoldable pub step_normal : Scan → ℕ → Text → Step
unfolding flush_and
step_normal s c rest =
    if c == b'\''
    then ok (record (write s c) { state = single_quote }, false)
    else if c == b'"'
    then ok (record (write s c) { state = double_quote }, false)
    else if c == b'`'
    then err backticks
    else if c == b'$'
    then (if next_is rest b'(' then err command_substitution else ok (write s c, false))
    else if c == b'<'
    then (if next_is rest b'<'
        then err heredoc
        else if next_is rest b'('
        then err process_substitution
        else ok (write s c, false))
    else if c == b'>'
    then (if next_is rest b'(' then err process_substitution else ok (write s c, false))
    else if c == b'&'
    then (if previous_non_space_byte s.current == b'>'
        then ok (write s c, false)
        else if next_is rest b'&'
        then flush_and true and_if s
        else err background_execution)
    else if c == b'|'
    then (if next_is rest b'|' then flush_and true or_if s else flush_and false pipe s)
    else if c == b';'
    then flush_and false semicolon s
    else if c == b'\n'
    then flush_and false semicolon s
    else ok (write s c, false)

unfoldable pub step_in : ScanState → Scan → ℕ → Text → Step
unfolding in_double_quote step_normal
step_in single_quote s c rest =
    ok (record (write s c) { state = if c == b'\'' then normal else single_quote }, false)
step_in double_quote s c rest = in_double_quote s c rest
step_in normal s c rest = step_normal s c rest

-- The loop over the bytes that are left.
unfoldable pub scan : Bool → Scan → Text → Result SplitError Scan
scan skip s [] = ok s
scan true s (c ∷ rest) = scan false s rest
scan false s (c ∷ rest) = do (s', skip) ← step_in s.state s c rest; scan skip s' rest

-- Where only blanks are left: the command is empty, or it ends in a separator.
no_tail : List Segment → Result SplitError (List Segment)
no_tail [] = ok []
no_tail (_ ∷ _) = err trailing_separator

-- What follows the loop.
unfoldable pub finish : ScanState → Scan → Result SplitError (List Segment)
unfolding no_tail
finish normal s =
    let tail = trim_space s.current in
    if tail == []
    then no_tail s.segments
    else ok (s.segments ++ (segment_of tail end_of_command ∷ []))
finish _ s = err unterminated_quotes

abbrev pub start : Scan
start = record { state = normal; current = []; segments = [] }

-- `splitShellSegments`.
unfoldable pub split_shell_segments : Text → Result SplitError (List Segment)
unfolding scan step_in finish
split_shell_segments command = do s ← scan false start command; finish s.state s
