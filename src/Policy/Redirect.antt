-- ===== src/Policy/Redirect.antt =====
-- `hasWriteRedirect` of internal/policy/engine.go: whether a segment writes to a file by an unquoted
-- `>`.
use ops_terminator.Base.{ℕ, Bool, true, false, ◌||◌, [], ◌∷◌, ◌==◌, nat_eq, text_eq, if◌then◌else◌}
use ops_terminator.Base.Text.{Text, bytes, is_space, trim_space, one_of}
use ops_terminator.Policy.Segments.{ScanState, normal, single_quote, double_quote}

-- `isSegmentSeparator`.
is_segment_separator : ℕ → Bool
is_segment_separator c = c == b';' || c == b'|' || c == b'&' || c == b'<' || c == b'>'

-- `isBenignRedirectTarget`.
unfoldable pub is_benign_redirect_target : Text → Bool
is_benign_redirect_target target =
    one_of (trim_space target)
      (bytes "" ∷ bytes "/dev/null" ∷ bytes "1" ∷ bytes "2" ∷ bytes "&1" ∷ bytes "&2" ∷ [])

-- `for j < len(segment) && unicode.IsSpace(...) { j++ }`.
skip_spaces : Text → Text
unfolding is_space
skip_spaces [] = []
skip_spaces (c ∷ s) = if is_space c then skip_spaces s else c ∷ s

-- `segment[start:j]`.
take_target : Text → Text
unfolding is_space is_segment_separator
take_target [] = []
take_target (c ∷ s) = if is_space c || is_segment_separator c then [] else c ∷ take_target s

-- The text behind `>`, and whether a second `>` is passed over.
after_arrow : Text → Text × Bool
after_arrow [] = ([], false)
after_arrow (d ∷ s) = if d == b'>' then (s, true) else (d ∷ s, false)

-- The new state, whether the next byte is passed over, and whether a redirect is found.
unfoldable pub step_in : ScanState → ℕ → Text → ScanState × Bool × Bool
unfolding after_arrow skip_spaces take_target is_benign_redirect_target
step_in single_quote c rest = (if c == b'\'' then normal else single_quote, false, false)
step_in double_quote c rest =
    if c == b'\\'
    then (double_quote, true, false)
    else (if c == b'"' then normal else double_quote, false, false)
step_in normal c rest =
    if c == b'\''
    then (single_quote, false, false)
    else if c == b'"'
    then (double_quote, false, false)
    else if c == b'>'
    then (let (behind, twice) = after_arrow rest in
        let target = take_target (skip_spaces behind) in
        (normal, twice, if is_benign_redirect_target target then false else true))
    else (normal, false, false)

unfoldable pub redirects : Bool → ScanState → Text → Bool
redirects skip state [] = false
redirects true state (c ∷ rest) = redirects false state rest
redirects false state (c ∷ rest) =
    let (state', skip, found) = step_in state c rest in
    let later = redirects skip state' rest in if found then true else later

-- `hasWriteRedirect`.
unfoldable pub has_write_redirect : Text → Bool
unfolding redirects step_in
has_write_redirect segment = redirects false normal segment
