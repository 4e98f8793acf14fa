-- ===== src/Builtin/Quoting.antt =====
-- `shellQuote` against the scanners of the policy engine: whatever bytes a value has, its quoted form
-- is one piece of one word, and nothing in it separates segments or redirects.
use ops_terminator.Base.{
  ℕ, false, List, [], ◌∷◌, ◌++◌, append_assoc, append-nil, ok, inl, inr, ◌≡◌, refl, ap, sym, ◌∙◌,
  ◌==◌, nat_eq, text_eq, text_beq, ==_iff, Bool-cases, if◌then◌else◌,
}
use ops_terminator.Base.Text.{Text, is_space}
use ops_terminator.Policy.Segments
use ops_terminator.Policy.Segments.{ScanState, normal, single_quote, double_quote, Segment, Scan}
use ops_terminator.Policy.Words
use ops_terminator.Policy.Words.{WordScan, split_shell_words}
use ops_terminator.Policy.Redirect.{redirects, step_in}
use ops_terminator.Builtin.{replace_quotes, shell_quote}

-- The bytes that stand for one byte of the value.
abbrev quoted_byte : ℕ → Text
quoted_byte c = if c == b'\'' then b'\'' ∷ b'"' ∷ b'\'' ∷ b'"' ∷ b'\'' ∷ [] else c ∷ []

words_quoted_byte :
    (c : ℕ) (cur rest : Text) (ws : List Text)
    → Words.scan false (Words.scan_at single_quote cur ws) (quoted_byte c ++ rest)
      ≡ Words.scan false (Words.scan_at single_quote (cur ++ (c ∷ [])) ws) rest
unfolding Words.scan Words.step_in is_space
words_quoted_byte c cur rest ws = elim (Bool-cases (c == b'\'')) [
  | inl e ↦ rw e (
      ap (λ (x : ℕ). Words.scan false (Words.scan_at single_quote (cur ++ (x ∷ [])) ws) rest)
        (sym ((==_iff c b'\'').0 e)))
  | inr e ↦ rw e (rw (e, Words.scan))
]

words_replace_quotes :
    (v cur rest : Text) (ws : List Text)
    → Words.scan false (Words.scan_at single_quote cur ws) (replace_quotes v ++ (b'\'' ∷ rest))
      ≡ Words.scan false (Words.scan_at normal (cur ++ v) ws) rest
unfolding replace_quotes
words_replace_quotes [] cur rest ws = rw append-nil (unfold Words.scan Words.step_in in refl)
words_replace_quotes (c ∷ v) cur rest ws = rw append_assoc (
    words_quoted_byte c cur _ ws
    ∙ words_replace_quotes v (cur ++ (c ∷ [])) rest ws
    ∙ rw append_assoc)

words_open :
    (cur rest : Text) (ws : List Text)
    → Words.scan false (Words.scan_at normal cur ws) (b'\'' ∷ rest)
      ≡ Words.scan false (Words.scan_at single_quote cur ws) rest
unfolding Words.scan Words.step_in is_space
words_open cur rest ws = refl

-- The scanner of words reads a quoted value, wherever it stands between quotes, as the bytes of the
-- value, added to the word that it is in.
pub words-shell_quote :
    (v cur rest : Text) (ws : List Text)
    → Words.scan false (Words.scan_at normal cur ws) (shell_quote v ++ rest)
      ≡ Words.scan false (Words.scan_at normal (cur ++ v) ws) rest
unfolding shell_quote
words-shell_quote v cur rest ws =
    rw append_assoc (words_open cur _ ws ∙ words_replace_quotes v cur rest ws)

segments_quoted_byte :
    (c : ℕ) (cur rest : Text) (segs : List Segment)
    → Segments.scan false (Segments.scan_at single_quote cur segs) (quoted_byte c ++ rest)
      ≡ Segments.scan false (Segments.scan_at single_quote (cur ++ quoted_byte c) segs) rest
unfolding Segments.scan Segments.step_in
segments_quoted_byte c cur rest segs = elim (Bool-cases (c == b'\'')) [
  | inl e ↦ rw e (simp append_assoc)
  | inr e ↦ rw e (rw (e, Segments.scan))
]

segments_replace_quotes :
    (v cur rest : Text) (segs : List Segment)
    → Segments.scan false
        (Segments.scan_at single_quote cur segs)
        (replace_quotes v ++ (b'\'' ∷ rest))
      ≡ Segments.scan false
          (Segments.scan_at normal (cur ++ (replace_quotes v ++ (b'\'' ∷ []))) segs)
          rest
unfolding replace_quotes
segments_replace_quotes [] cur rest segs = unfold Segments.scan Segments.step_in in refl
segments_replace_quotes (c ∷ v) cur rest segs = rw append_assoc (
    segments_quoted_byte c cur _ segs
    ∙ segments_replace_quotes v (cur ++ quoted_byte c) rest segs
    ∙ simp append_assoc)

segments_open :
    (cur rest : Text) (segs : List Segment)
    → Segments.scan false (Segments.scan_at normal cur segs) (b'\'' ∷ rest)
      ≡ Segments.scan false (Segments.scan_at single_quote (cur ++ (b'\'' ∷ [])) segs) rest
unfolding Segments.scan Segments.step_in
segments_open cur rest segs = refl

-- The scanner of segments copies a quoted value to the segment that it is in: nothing in the value
-- ends the segment or is refused.
pub segments-shell_quote :
    (v cur rest : Text) (segs : List Segment)
    → Segments.scan false (Segments.scan_at normal cur segs) (shell_quote v ++ rest)
      ≡ Segments.scan false (Segments.scan_at normal (cur ++ shell_quote v) segs) rest
unfolding shell_quote
segments-shell_quote v cur rest segs = rw append_assoc (
    segments_open cur _ segs
    ∙ segments_replace_quotes v (cur ++ (b'\'' ∷ [])) rest segs
    ∙ simp append_assoc)

redirects-quoted_byte :
    (c : ℕ) (rest : Text)
    → redirects false single_quote (quoted_byte c ++ rest) ≡ redirects false single_quote rest
unfolding redirects step_in
redirects-quoted_byte c rest = elim (Bool-cases (c == b'\'')) [
  | inl e ↦ rw e
  | inr e ↦ rw e (rw (e, redirects))
]

redirects-replace_quotes :
    (v rest : Text)
    → redirects false single_quote (replace_quotes v ++ (b'\'' ∷ rest))
      ≡ redirects false normal rest
unfolding replace_quotes
redirects-replace_quotes [] rest = unfold redirects step_in in refl
redirects-replace_quotes (c ∷ v) rest =
    rw append_assoc (redirects-quoted_byte c _ ∙ redirects-replace_quotes v rest)

redirects_open :
    (rest : Text) → redirects false normal (b'\'' ∷ rest) ≡ redirects false single_quote rest
unfolding redirects step_in
redirects_open rest = refl

-- A quoted value holds no redirect, whatever `>` it has.
pub redirects-shell_quote :
    (v rest : Text) → redirects false normal (shell_quote v ++ rest) ≡ redirects false normal rest
unfolding shell_quote
redirects-shell_quote v rest = rw append_assoc (redirects_open _ ∙ redirects-replace_quotes v rest)

-- The quoted values, each with a blank behind it.
unfoldable pub quote_all : List Text → Text
quote_all [] = []
quote_all (v ∷ vs) = shell_quote v ++ (b' ' ∷ quote_all vs)

-- The values but for the empty ones.
abbrev pub non_empty : List Text → List Text
non_empty [] = []
non_empty ([] ∷ vs) = non_empty vs
non_empty ((c ∷ v) ∷ vs) = (c ∷ v) ∷ non_empty vs

words_blank :
    (cur rest : Text) (ws : List Text)
    → Words.scan false (Words.scan_at normal cur ws) (b' ' ∷ rest)
      ≡ Words.scan false (Words.scan_at normal [] (ws ++ non_empty (cur ∷ []))) rest
unfolding Words.scan Words.step_in Words.flush is_space text_beq
words_blank [] rest ws = rw append-nil refl
words_blank (c ∷ cur) rest ws = refl

non_empty-cons :
    (v : Text) (vs : List Text) → non_empty (v ∷ []) ++ non_empty vs ≡ non_empty (v ∷ vs)
non_empty-cons [] vs = refl
non_empty-cons (c ∷ v) vs = refl

words-quote_all :
    (vs ws : List Text)
    → Words.scan false (Words.scan_at normal [] ws) (quote_all vs)
      ≡ ok (Words.scan_at normal [] (ws ++ non_empty vs))
unfolding quote_all
words-quote_all [] ws = rw append-nil (unfold Words.scan in refl)
words-quote_all (v ∷ vs) ws =
    words-shell_quote v [] _ ws
    ∙ words_blank v _ ws
    ∙ words-quote_all vs (ws ++ non_empty (v ∷ []))
    ∙ rw append_assoc
        (ap (λ (us : List Text). ok (Words.scan_at normal [] (ws ++ us))) (non_empty-cons v vs))

-- Splitting quoted values, each with a blank behind it, into words gives the values back in order, but
-- for the empty ones, which are dropped.
pub split_shell_words-quote_all :
    (vs : List Text) → split_shell_words (quote_all vs) ≡ ok (non_empty vs)
unfolding split_shell_words Words.finish Words.flush text_beq
split_shell_words-quote_all vs = rw (words-quote_all vs []) refl
