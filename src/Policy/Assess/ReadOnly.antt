-- ===== src/Policy/Assess/ReadOnly.antt =====
-- Exactly which commands `assessShellCommand` allows.
use ops_terminator.Base.{
  true, false, List, [], ◌∷◌, Option, none, some, Result, ok, err, >>=-eq-ok, ok-injective, inl,
  inr, ◌≡◌, ◌≢◌, ◌↔◌, refl, sym, arith, subst, ◌∙◌, ◌==◌, text_eq, Bool-cases, Result-cases, All,
}
use ops_terminator.Base.Text.{Text}
use ops_terminator.Models.{allow-ne-deny, ask-ne-allow, policy_decision_allow}
use ops_terminator.Policy.Segments.{Segment, SplitError, split_shell_segments}
use ops_terminator.Policy.Words.{split_shell_words, extract_command}
use ops_terminator.Policy.Redirect.{has_write_redirect}
use ops_terminator.Policy.Commands.{is_read_only_command, is_nested_interpreter}
use ops_terminator.Policy.Commands.Tables.{is_read_only_command-IsHarmless}
use ops_terminator.Policy.Assess.Verdict.{parse_segments-IsDeny}
use ops_terminator.Policy.Assess.{
  accept_command, parse_words, parse_segment, parse_segments, pipes_download_to_shell,
  first_destructive, all_read_only, grade, after_destructive, assess_parsed, assess_segments,
  assess_shell_command,
}

-- The segment splits into words, the words name a read-only command behind the assignments, and no
-- redirect of the segment writes.
pub record IsReadOnly (s : Segment) : Type 0 where
  pub words : List Text
  pub split : split_shell_words s.raw ≡ ok words
  pub command : is_read_only_command (extract_command words).0 (extract_command words).1 ≡ true
  pub no_write : has_write_redirect s.raw ≡ false

-- The segment with the command and arguments of its words.
abbrev named : Segment → List Text → Segment
named s words = record s { command = (extract_command words).0; args = (extract_command words).1 }

accept_command-eq-ok :
    (s : Segment) (words : Text × List Text) {p : Segment}
    → accept_command s words ≡ ok p
    → record s { command = words.0; args = words.1 } ≡ p
unfolding accept_command
accept_command-eq-ok s (cmd, args) h = elim (Bool-cases (cmd == [])) [
  | inl e ↦ cc (rw e at h)
  | inr e ↦ elim (Bool-cases (is_nested_interpreter cmd args)) [
    | inl n ↦ cc (rw (e, n) at h)
    | inr n ↦ ok-injective (rw (e, n) at h)
  ]
]

parse_segment-eq-ok :
    (s : Segment) {p : Segment}
    → parse_segment s ≡ ok p
    → (words : List Text) × (split_shell_words s.raw ≡ ok words) × (named s words ≡ p)
unfolding parse_segment
parse_segment-eq-ok s h = elim (Result-cases (split_shell_words s.raw)) [
  | inl (e, f) ↦ cc (rw (f, parse_words) at h)
  | inr (words, f) ↦
      (words, f, accept_command-eq-ok s (extract_command words) (rw (f, parse_words) at h))
]

all_read_only-cons :
    (p : Segment) (ps : List Segment)
    → all_read_only (p ∷ ps) ≡ true
    → (has_write_redirect p.raw ≡ false)
      × (is_read_only_command p.command p.args ≡ true)
      × (all_read_only ps ≡ true)
unfolding all_read_only
all_read_only-cons p ps h = ground arith

all_read_only-IsReadOnly :
    (segments : List Segment) {parsed : List Segment}
    → parse_segments segments ≡ ok parsed
    → all_read_only parsed ≡ true
    → All IsReadOnly segments
unfolding parse_segments
all_read_only-IsReadOnly [] h r = tt
all_read_only-IsReadOnly (s ∷ segments) {parsed} h r =
    let (p, one, h') = >>=-eq-ok (parse_segment s) _ h in
    let (ps, more, e) = >>=-eq-ok (parse_segments segments) _ h' in
    let (words, split, q) = parse_segment-eq-ok s one in
    let r' = all_read_only-cons (named s words) ps (
      subst (λ x. all_read_only (x ∷ ps) ≡ true) (sym q)
        (subst (λ x. all_read_only x ≡ true) (sym (ok-injective e)) r)) in
    (
      record { words = words; split = split; command = r'.1; no_write = r'.0 },
      all_read_only-IsReadOnly segments more r'.2,
    )

-- What the later loops see of a parsed segment that is read-only.
abbrev IsFine : Segment → Type 0
IsFine p = (is_read_only_command p.command p.args ≡ true) × (has_write_redirect p.raw ≡ false)

parse_segment-IsReadOnly : (s : Segment) (r : IsReadOnly s) → parse_segment s ≡ ok (named s r.words)
unfolding parse_segment accept_command
parse_segment-IsReadOnly s r =
    let i = is_read_only_command-IsHarmless _ _ r.command in
    rw (r.split, parse_words) (rw (i.not_empty, i.not_nested))

parse_segments-IsReadOnly :
    (segments : List Segment)
    → All IsReadOnly segments
    → (parsed : List Segment) × (parse_segments segments ≡ ok parsed) × All IsFine parsed
unfolding parse_segments
parse_segments-IsReadOnly [] h = ([], refl, tt)
parse_segments-IsReadOnly (s ∷ segments) (r, h) =
    let (parsed, e, fine) = parse_segments-IsReadOnly segments h in
    (
      named s r.words ∷ parsed,
      rw (parse_segment-IsReadOnly s r, e),
      ((r.command, r.no_write), fine),
    )

pipes_download_to_shell-IsFine :
    (ps : List Segment) → All IsFine ps → pipes_download_to_shell ps ≡ false
unfolding pipes_download_to_shell
pipes_download_to_shell-IsFine [] h = refl
pipes_download_to_shell-IsFine (p ∷ []) h = refl
pipes_download_to_shell-IsFine (p ∷ q ∷ ps) h = ground (
  arith,
  (is_read_only_command-IsHarmless p.command p.args h.0.0).not_fetch,
  pipes_download_to_shell-IsFine (q ∷ ps) h.1,
)

first_destructive-IsFine : (ps : List Segment) → All IsFine ps → first_destructive ps ≡ none
unfolding first_destructive
first_destructive-IsFine [] h = refl
first_destructive-IsFine (p ∷ ps) h =
    rw ((is_read_only_command-IsHarmless p.command p.args h.0.0).not_destructive p.raw)
      (first_destructive-IsFine ps h.1)

all_read_only-IsFine : (ps : List Segment) → All IsFine ps → all_read_only ps ≡ true
unfolding all_read_only
all_read_only-IsFine [] h = refl
all_read_only-IsFine (p ∷ ps) h = rw (h.0.0, h.0.1) (all_read_only-IsFine ps h.1)

grade-allow :
    (ps : List Segment) → (grade ps).decision ≡ policy_decision_allow → all_read_only ps ≡ true
unfolding grade
grade-allow ps h = elim (Bool-cases (all_read_only ps)) [
  | inl e ↦ e
  | inr e ↦ absurd (ask-ne-allow (rw e at h))
]

after_destructive-allow :
    (ps : List Segment) (found : Option Text)
    → (after_destructive ps found).decision ≡ policy_decision_allow
    → all_read_only ps ≡ true
unfolding after_destructive
after_destructive-allow ps none h = grade-allow ps h
after_destructive-allow ps (some cmd) h = absurd (allow-ne-deny (sym h))

pipes_cases-allow :
    (ps : List Segment)
    → (assess_parsed (ok ps)).decision ≡ policy_decision_allow
    → all_read_only ps ≡ true
unfolding assess_parsed
pipes_cases-allow ps h = elim (Bool-cases (pipes_download_to_shell ps)) [
  | inl e ↦ absurd (allow-ne-deny (sym (rw e at h)))
  | inr e ↦ after_destructive-allow ps (first_destructive ps) (rw e at h)
]

assess_parsed-allow :
    (segments : List Segment)
    → (assess_parsed (parse_segments segments)).decision ≡ policy_decision_allow
    → All IsReadOnly segments
unfolding assess_parsed
assess_parsed-allow segments h = elim (Result-cases (parse_segments segments)) [
  | inl (a, f) ↦
      absurd (
        allow-ne-deny
          (sym (rw (f, assess_parsed) at h) ∙ (parse_segments-IsDeny segments f).denies))
  | inr (ps, f) ↦ all_read_only-IsReadOnly segments f (pipes_cases-allow ps (rw f at h))
]

assess_parsed-IsReadOnly :
    (segments : List Segment)
    → All IsReadOnly segments
    → (assess_parsed (parse_segments segments)).decision ≡ policy_decision_allow
unfolding assess_parsed
assess_parsed-IsReadOnly segments h =
    let (ps, e, fine) = parse_segments-IsReadOnly segments h in
    rw (e, assess_parsed)
      (rw (pipes_download_to_shell-IsFine ps fine, first_destructive-IsFine ps fine)
        (unfold after_destructive grade in rw (all_read_only-IsFine ps fine)))

-- The command splits into segments, at least one, that are all read-only.
pub record IsReadOnlyCommand (command : Text) : Type 0 where
  pub segments : List Segment
  pub split : split_shell_segments command ≡ ok segments
  pub not_empty : segments ≢ []
  pub read_only : All IsReadOnly segments

allow-IsReadOnlyCommand :
    (command : Text) (split : Result SplitError (List Segment))
    → split_shell_segments command ≡ split
    → (assess_segments split).decision ≡ policy_decision_allow
    → IsReadOnlyCommand command
unfolding assess_segments
allow-IsReadOnlyCommand command (err e) f h = absurd (allow-ne-deny (sym h))
allow-IsReadOnlyCommand command (ok []) f h = absurd (allow-ne-deny (sym h))
allow-IsReadOnlyCommand command (ok (s ∷ segments)) f h = record {
  segments = s ∷ segments;
  split = f;
  not_empty = λ e. cc;
  read_only = assess_parsed-allow (s ∷ segments) h;
}

IsReadOnlyCommand-allow :
    (segments : List Segment)
    → segments ≢ []
    → All IsReadOnly segments
    → (assess_segments (ok segments)).decision ≡ policy_decision_allow
unfolding assess_segments
IsReadOnlyCommand-allow [] n h = absurd (n refl)
IsReadOnlyCommand-allow (s ∷ segments) n h = assess_parsed-IsReadOnly (s ∷ segments) h

-- A command is allowed exactly when it splits into one or more segments, each of which splits into
-- words that name a read-only command and has no redirect that writes. The tests that deny never
-- fire on such a command.
pub assess_shell_command_allow_iff :
    (command : Text)
    → ((assess_shell_command command).decision ≡ policy_decision_allow) ↔ IsReadOnlyCommand command
unfolding assess_shell_command
assess_shell_command_allow_iff command = (
  λ h. allow-IsReadOnlyCommand command (split_shell_segments command) refl h,
  λ r. rw r.split (IsReadOnlyCommand-allow r.segments r.not_empty r.read_only),
)
