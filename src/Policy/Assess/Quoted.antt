-- ===== src/Policy/Assess/Quoted.antt =====
-- A command substitution between double quotes passes the scanner, though a shell runs it.
use ops_terminator.Base.{
  true, false, List, [], ◌∷◌, ◌++◌, append_assoc, append-nil, ok, ◌≡◌, refl, ◌∙◌, ◌==◌, nat_eq,
  text_eq, text_beq, All,
}
use ops_terminator.Base.Text.{Text, bytes, is_space, to_lower, one_of}
use ops_terminator.Base.Text.Trim.{trim_space-is_visible}
use ops_terminator.Models.{policy_decision_allow}
use ops_terminator.Policy.Segments
use ops_terminator.Policy.Segments.{
  normal, single_quote, double_quote, Segment, Separator, segment_of, end_of_command,
  split_shell_segments,
}
use ops_terminator.Policy.Words
use ops_terminator.Policy.Words.{split_shell_words, extract_command, is_assignment}
use ops_terminator.Policy.Redirect.{redirects, step_in, has_write_redirect}
use ops_terminator.Policy.Commands.{is_read_only_command}
use ops_terminator.Policy.Assess.{assess_shell_command}
use ops_terminator.Policy.Assess.ReadOnly.{assess_shell_command_allow_iff}

-- No byte of the text ends a double-quoted piece or escapes the next one.
abbrev pub IsPlain : Text → Type 0
IsPlain = All (λ c. ((c == b'"') ≡ false) × ((c == b'\\') ≡ false))

segments-IsPlain :
    (t cur rest : Text) (segs : List Segment)
    → IsPlain t
    → Segments.scan false (Segments.scan_at double_quote cur segs) (t ++ rest)
      ≡ Segments.scan false (Segments.scan_at double_quote (cur ++ t) segs) rest
unfolding Segments.scan Segments.step_in
segments-IsPlain [] cur rest segs h = rw append-nil
segments-IsPlain (c ∷ t) cur rest segs h =
    rw (h.0.0, h.0.1) (segments-IsPlain t (cur ++ (c ∷ [])) rest segs h.1 ∙ rw append_assoc)

words-IsPlain :
    (t cur rest : Text) (ws : List Text)
    → IsPlain t
    → Words.scan false (Words.scan_at double_quote cur ws) (t ++ rest)
      ≡ Words.scan false (Words.scan_at double_quote (cur ++ t) ws) rest
unfolding Words.scan Words.step_in
words-IsPlain [] cur rest ws h = rw append-nil
words-IsPlain (c ∷ t) cur rest ws h =
    rw (h.0.0, h.0.1) (words-IsPlain t (cur ++ (c ∷ [])) rest ws h.1 ∙ rw append_assoc)

redirects-IsPlain :
    (t rest : Text)
    → IsPlain t
    → redirects false double_quote (t ++ rest) ≡ redirects false double_quote rest
unfolding redirects step_in
redirects-IsPlain [] rest h = refl
redirects-IsPlain (c ∷ t) rest h = rw (h.0.0, h.0.1) (redirects-IsPlain t rest h.1)

-- `echo "` in front of the text and `"` behind it.
abbrev pub echo_quoted : Text → Text
echo_quoted t = b'e' ∷ b'c' ∷ b'h' ∷ b'o' ∷ b' ' ∷ b'"' ∷ (t ++ (b'"' ∷ []))

-- `echo "`, as bytes.
abbrev echo_open : Text
echo_open = b'e' ∷ b'c' ∷ b'h' ∷ b'o' ∷ b' ' ∷ b'"' ∷ []

segments_open :
    (rest : Text)
    → Segments.scan false Segments.start (echo_open ++ rest)
      ≡ Segments.scan false (Segments.scan_at double_quote echo_open []) rest
unfolding Segments.scan Segments.step_in
segments_open rest = refl

segments_close :
    (cur : Text)
    → Segments.scan false (Segments.scan_at double_quote cur []) (b'"' ∷ [])
      ≡ ok (Segments.scan_at normal (cur ++ (b'"' ∷ [])) [])
unfolding Segments.scan Segments.step_in
segments_close cur = refl

split_shell_segments-echo :
    (t : Text)
    → IsPlain t
    → split_shell_segments (echo_quoted t) ≡ ok (segment_of (echo_quoted t) end_of_command ∷ [])
unfolding split_shell_segments Segments.finish text_beq
split_shell_segments-echo t h =
    rw
      (segments_open (t ++ (b'"' ∷ []))
        ∙ segments-IsPlain t echo_open (b'"' ∷ []) [] h
        ∙ segments_close (echo_open ++ t))
      (rw (trim_space-is_visible b'e' (b'c' ∷ b'h' ∷ b'o' ∷ b' ' ∷ b'"' ∷ t) b'"' refl refl))

words_open :
    (rest : Text)
    → Words.scan false Words.start (echo_open ++ rest)
      ≡ Words.scan false (Words.scan_at double_quote [] (bytes "echo" ∷ [])) rest
unfolding Words.scan Words.step_in Words.flush is_space text_beq bytes
words_open rest = refl

words_close :
    (cur : Text) (ws : List Text)
    → Words.scan false (Words.scan_at double_quote cur ws) (b'"' ∷ [])
      ≡ ok (Words.scan_at normal cur ws)
unfolding Words.scan Words.step_in
words_close cur ws = refl

-- The words of the finished scan: `echo` and what was quoted, if that is not empty.
abbrev echo_words : Text → List Text
echo_words [] = bytes "echo" ∷ []
echo_words (c ∷ t) = bytes "echo" ∷ (c ∷ t) ∷ []

words_finish :
    (t : Text)
    → Words.finish normal (Words.scan_at normal t (bytes "echo" ∷ [])) ≡ ok (echo_words t)
unfolding Words.finish Words.flush text_beq
words_finish [] = refl
words_finish (c ∷ t) = refl

split_shell_words-echo :
    (t : Text) → IsPlain t → split_shell_words (echo_quoted t) ≡ ok (echo_words t)
unfolding split_shell_words
split_shell_words-echo t h =
    rw
      (words_open (t ++ (b'"' ∷ []))
        ∙ words-IsPlain t [] (b'"' ∷ []) (bytes "echo" ∷ []) h
        ∙ words_close t (bytes "echo" ∷ []))
      (words_finish t)

has_write_redirect-echo : (t : Text) → IsPlain t → has_write_redirect (echo_quoted t) ≡ false
unfolding has_write_redirect redirects step_in
has_write_redirect-echo t h = redirects-IsPlain t (b'"' ∷ []) h

is_read_only_command-echo :
    (t : Text)
    → is_read_only_command (extract_command (echo_words t)).0 (extract_command (echo_words t)).1
      ≡ true
unfolding extract_command is_assignment is_read_only_command to_lower one_of bytes text_beq
is_read_only_command-echo [] = refl
is_read_only_command-echo (c ∷ t) = refl

-- `echo` with one double-quoted argument is allowed with no approval, whatever the argument holds
-- but a double quote or a backslash: so too with a command substitution, `$(...)` or backticks,
-- which a shell runs inside double quotes.
pub echo_quoted-allow :
    (t : Text) → IsPlain t → (assess_shell_command (echo_quoted t)).decision ≡ policy_decision_allow
echo_quoted-allow t h = (assess_shell_command_allow_iff (echo_quoted t)).1 (record {
  segments = segment_of (echo_quoted t) end_of_command ∷ [];
  split = split_shell_segments-echo t h;
  not_empty = λ e. cc;
  read_only = (
    record {
      words = echo_words t;
      split = split_shell_words-echo t h;
      command = is_read_only_command-echo t;
      no_write = has_write_redirect-echo t h;
    },
    tt,
  );
})
