-- ===== src/Policy/Segments/Cuts.antt =====
-- What `splitShellSegments` returns is the whole command, cut at separators.
use mathlib.Core.Logic.{◌≢◌}
use mathlib.Core.Bool.{false≢true}
use ops_terminator.Base.{
  ℕ, Bool, true, false, List, [], ◌∷◌, ◌++◌, append_assoc, append-nil, ok, inl, inr, ◌≡◌, ◌⊎◌, refl,
  ap, sym, ◌∙◌, arith, subst, ◌==◌, nat_eq, text_eq, ==_iff, Bool-cases, >>=-eq-ok, ok-injective,
}
use ops_terminator.Base.Text.{Text, trim_space}
use ops_terminator.Policy.Segments.{
  ScanState, normal, single_quote, double_quote, Separator, and_if, or_if, pipe, semicolon,
  end_of_command, Segment, Scan, segment_of, next_is, flush, step_normal, in_double_quote, step_in,
  scan, finish, no_tail, start, split_shell_segments,
}

-- The bytes of the command that a step has accounted for beside `c`: none, or the next one.
abbrev Wrote : Scan → ℕ → Text → Scan × Bool → Type 0
Wrote s c rest (s', false) = (s'.segments ≡ s.segments) × (s'.current ≡ s.current ++ (c ∷ []))
Wrote s c [] (s', true) = ⊥
Wrote s c (d ∷ _) (s', true) =
    (s'.segments ≡ s.segments) × (s'.current ≡ (s.current ++ (c ∷ [])) ++ (d ∷ []))

-- The segment that a step closes.
abbrev Closed : Scan → Separator → Scan → Type 0
Closed s sep s' =
    (trim_space s.current ≢ [])
    × (s'.segments ≡ s.segments ++ (segment_of (trim_space s.current) sep ∷ []))
    × (s'.current ≡ [])

abbrev Effect : Scan → ℕ → Text → Scan × Bool → Type 0
Effect s c rest r =
    Wrote s c rest r
    ⊎ (Closed s and_if r.0 × (c ≡ b'&') × (next_is rest b'&' ≡ true) × (r.1 ≡ true))
    ⊎ (Closed s or_if r.0 × (c ≡ b'|') × (next_is rest b'|' ≡ true) × (r.1 ≡ true))
    ⊎ (Closed s pipe r.0 × (c ≡ b'|') × (r.1 ≡ false))
    ⊎ (Closed s semicolon r.0 × ((c ≡ b';') ⊎ (c ≡ b'\n')) × (r.1 ≡ false))

step_normal-Effect :
    (s : Scan) (c : ℕ) (rest : Text) (s' : Scan) (skip : Bool)
    → step_normal s c rest ≡ ok (s', skip)
    → Effect s c rest (s', skip)
unfolding step_normal flush
step_normal-Effect s c rest s' false h = ground (arith, ==_iff (trim_space s.current) [])
step_normal-Effect s c rest s' true h = ground (arith, ==_iff (trim_space s.current) [])

in_double_quote-Effect :
    (s : Scan) (c : ℕ) (rest : Text) (s' : Scan) (skip : Bool)
    → in_double_quote s c rest ≡ ok (s', skip)
    → Effect s c rest (s', skip)
unfolding in_double_quote
in_double_quote-Effect s c [] s' false h = inl (ground arith)
in_double_quote-Effect s c [] s' true h = ground arith
in_double_quote-Effect s c (d ∷ rest) s' false h = inl (ground arith)
in_double_quote-Effect s c (d ∷ rest) s' true h = inl (ground arith)

step_in-Effect :
    (m : ScanState) (s : Scan) (c : ℕ) (rest : Text) (s' : Scan) (skip : Bool)
    → step_in m s c rest ≡ ok (s', skip)
    → Effect s c rest (s', skip)
unfolding step_in
step_in-Effect single_quote s c rest s' false h = inl (ground arith)
step_in-Effect single_quote s c rest s' true h = ground arith
step_in-Effect double_quote s c rest s' skip h = in_double_quote-Effect s c rest s' skip h
step_in-Effect normal s c rest s' skip h = step_normal-Effect s c rest s' skip h

-- The bytes that a separator stands for.
pub data IsSeparator : Separator → Text → Type 0 where
  by_and : IsSeparator and_if (b'&' ∷ b'&' ∷ [])
  by_or : IsSeparator or_if (b'|' ∷ b'|' ∷ [])
  by_pipe : IsSeparator pipe (b'|' ∷ [])
  by_semicolon : IsSeparator semicolon (b';' ∷ [])
  by_newline : IsSeparator semicolon (b'\n' ∷ [])
  by_end : IsSeparator end_of_command []

-- The text is made of one piece for each segment, each with its separator behind it; the segment's
-- text is the piece with its blanks trimmed, and is not empty.
pub data Woven : List Segment → Text → Type 0 where
  none_left : Woven [] []
  piece :
      {raw sep_text rest : Text} {sep : Separator} {segs : List Segment} (text : Text)
      → trim_space text ≡ raw
      → raw ≢ []
      → IsSeparator sep sep_text
      → Woven segs rest
      → Woven (segment_of raw sep ∷ segs) (text ++ (sep_text ++ rest))

Woven-of_eq : {segs : List Segment} {p q : Text} → p ≡ q → Woven segs p → Woven segs q
Woven-of_eq {segs} e w = subst (Woven segs) e w

Woven-concat :
    {segs : List Segment} {p sep_text : Text} {sep : Separator}
    → Woven segs p
    → (text : Text) → trim_space text ≢ []
    → IsSeparator sep sep_text
    → Woven (segs ++ (segment_of (trim_space text) sep ∷ [])) (p ++ (text ++ sep_text))
Woven-concat {sep_text} none_left text n i =
    Woven-of_eq (ap (λ x. text ++ x) (append-nil sep_text)) (piece text refl n i none_left)
Woven-concat (piece t e m j w) text n i =
    Woven-of_eq (simp append_assoc) (piece t e m j (Woven-concat w text n i))

-- The bytes that are left once the byte that is passed over is taken off.
abbrev unread : Bool → Text → Text
unread false rest = rest
unread true [] = []
unread true (d ∷ rest) = rest

-- The state accounts for the text up to the bytes that are left.
abbrev Accounts : Scan → Text → Text → Type 0
Accounts s left whole = (p : Text) × Woven s.segments p × (p ++ (s.current ++ left) ≡ whole)

Wrote-Accounts :
    (s : Scan) (c : ℕ) (rest : Text) (s' : Scan) (skip : Bool) {whole : Text}
    → Wrote s c rest (s', skip)
    → Accounts s (c ∷ rest) whole
    → Accounts s' (unread skip rest) whole
Wrote-Accounts s c rest s' false (e, f) (p, w, q) = (p, rw e w, rw f (rw append_assoc q))
Wrote-Accounts s c [] s' true h a = absurd h
Wrote-Accounts s c (d ∷ rest) s' true (e, f) (p, w, q) = (p, rw e w, rw f (simp append_assoc q))

Closed-Accounts :
    (s : Scan) (sep : Separator) (s' : Scan) (sep_text left : Text) {whole : Text}
    → Closed s sep s'
    → IsSeparator sep sep_text
    → Accounts s (sep_text ++ left) whole
    → Accounts s' left whole
Closed-Accounts s sep s' sep_text left (n, e, f) i (p, w, q) =
    (p ++ (s.current ++ sep_text), rw e (Woven-concat w s.current n i), rw f (simp append_assoc q))

-- Two equal bytes in front, the second passed over.
doubled :
    (c b : ℕ) (rest : Text) (skip : Bool)
    → c ≡ b
    → next_is rest b ≡ true
    → skip ≡ true
    → c ∷ rest ≡ b ∷ b ∷ unread skip rest
unfolding next_is
doubled c b [] skip e n k = cc
doubled c b (d ∷ rest) skip e n k = rw (k, e, (==_iff d b).0 n)

Effect-Accounts :
    (s : Scan) (c : ℕ) (rest : Text) (s' : Scan) (skip : Bool) {whole : Text}
    → Effect s c rest (s', skip)
    → Accounts s (c ∷ rest) whole
    → Accounts s' (unread skip rest) whole
Effect-Accounts s c rest s' skip {whole} h a = cases h
  where
    by :
        (sep : Separator) (sep_text : Text)
        → Closed s sep s'
        → IsSeparator sep sep_text
        → c ∷ rest ≡ sep_text ++ unread skip rest
        → Accounts s' (unread skip rest) whole
    by sep sep_text cl i e =
        Closed-Accounts s sep s' sep_text (unread skip rest) cl i
          (subst (λ x. Accounts s x whole) e a)

    cases : Effect s c rest (s', skip) → Accounts s' (unread skip rest) whole
    cases (inl w) = Wrote-Accounts s c rest s' skip w a
    cases (inr (inl (cl, e, n, k))) = by and_if _ cl by_and (doubled c b'&' rest skip e n k)
    cases (inr (inr (inl (cl, e, n, k)))) = by or_if _ cl by_or (doubled c b'|' rest skip e n k)
    cases (inr (inr (inr (inl (cl, e, k))))) = by pipe _ cl by_pipe (rw (k, e))
    cases (inr (inr (inr (inr (cl, inl e, k))))) = by semicolon _ cl by_semicolon (rw (k, e))
    cases (inr (inr (inr (inr (cl, inr e, k))))) = by semicolon _ cl by_newline (rw (k, e))

scan-Accounts :
    (rest : Text) (skip : Bool) (s : Scan) {s' : Scan} {whole : Text}
    → scan skip s rest ≡ ok s'
    → Accounts s (unread skip rest) whole
    → Accounts s' [] whole
unfolding scan
scan-Accounts [] false s {whole} h a = subst (λ x. Accounts x [] whole) (ok-injective h) a
scan-Accounts [] true s {whole} h a = subst (λ x. Accounts x [] whole) (ok-injective h) a
scan-Accounts (c ∷ rest) true s h a = scan-Accounts rest false s h a
scan-Accounts (c ∷ rest) false s h a =
    let ((s1, skip), e, h') = >>=-eq-ok (step_in s.state s c rest) _ h in
    scan-Accounts rest skip s1 h'
      (Effect-Accounts s c rest s1 skip (step_in-Effect s.state s c rest s1 skip e) a)

Woven-nil : {segs : List Segment} {p : Text} → Woven segs p → segs ≡ [] → p ≡ []
Woven-nil none_left e = refl
Woven-nil (piece t e m j w) e' = cc

no_tail-Woven :
    (segments : List Segment) {segs : List Segment}
    → no_tail segments ≡ ok segs
    → (segs ≡ []) × (segments ≡ [])
unfolding no_tail
no_tail-Woven [] h = (sym (ok-injective h), refl)
no_tail-Woven (_ ∷ _) h = cc

finish-Woven :
    (m : ScanState) (s : Scan) (whole : Text) {segs : List Segment}
    → finish m s ≡ ok segs
    → Accounts s [] whole
    → ((segs ≡ []) × (trim_space whole ≡ [])) ⊎ Woven segs whole
unfolding finish
finish-Woven single_quote s whole h a = cc
finish-Woven double_quote s whole h a = cc
finish-Woven normal s whole h (p, w, q) = elim (Bool-cases (trim_space s.current == [])) [
  | inl e ↦
      let (none_found, none_scanned) = no_tail-Woven s.segments (rw e at h) in
      let all_current : s.current ≡ whole =
        sym (append-nil s.current)
        ∙ ap (λ x. x ++ (s.current ++ [])) (sym (Woven-nil w none_scanned))
        ∙ q in
      inl (none_found, ap trim_space (sym all_current) ∙ (==_iff (trim_space s.current) []).0 e)
  | inr e ↦ inr (
      subst (λ x. Woven x whole) (ok-injective (rw e at h))
        (Woven-of_eq q (
          Woven-concat w s.current
            (λ z. false≢true (sym e ∙ (==_iff (trim_space s.current) []).1 z)) by_end)))
]

-- The segments of a command that is split are the whole command: cut into pieces, each a segment's
-- text but for the blanks around it, with the bytes of its separator between it and the next. No
-- byte outside the separators and the blanks is lost, none is added, and no segment is blank. There
-- are no segments only where the command is blank.
pub split_shell_segments-Woven :
    (command : Text) {segs : List Segment}
    → split_shell_segments command ≡ ok segs
    → ((segs ≡ []) × (trim_space command ≡ [])) ⊎ Woven segs command
unfolding split_shell_segments
split_shell_segments-Woven command h =
    let (s, e, f) = >>=-eq-ok (scan false start command) _ h in
    finish-Woven s.state s command f (scan-Accounts command false start e ([], none_left, refl))
