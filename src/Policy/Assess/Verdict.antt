-- ===== src/Policy/Assess/Verdict.antt =====
-- Which rule ids go with which decisions in `assessShellCommand`.
use ops_terminator.Base.{
  true, false, List, [], ◌∷◌, Option, none, some, Result, ok, err, ◌>>=◌, inl, inr, ◌≡◌, refl, ◌==◌,
  text_eq, text_beq, Bool-cases, Result-cases,
}
use ops_terminator.Base.Text.{Text, bytes, one_of}
use ops_terminator.Models.{allow-ne-deny, ask-ne-deny, policy_decision_deny}
use ops_terminator.Policy.Rules.{is_protected_deny_rule}
use ops_terminator.Policy.Segments.{Segment, SplitError, split_shell_segments}
use ops_terminator.Policy.Words.{split_shell_words, extract_command}
use ops_terminator.Policy.Commands.{is_nested_interpreter}
use ops_terminator.Policy.Assess.{
  Assessment, accept_command, parse_words, parse_segment, parse_segments, pipes_download_to_shell,
  first_destructive, all_read_only, grade, after_destructive, assess_parsed, assess_segments,
  assess_shell_command,
}

-- The assessment denies under a protected rule's id and allows no override.
pub record IsDeny (a : Assessment) : Type 0 where
  pub denies : a.decision ≡ policy_decision_deny
  pub protected : is_protected_deny_rule a.rule_id ≡ true
  pub no_override : a.override_allowed ≡ false

IsDeny-of :
    (a : Assessment)
    → a.decision ≡ policy_decision_deny
    → is_protected_deny_rule a.rule_id ≡ true
    → a.override_allowed ≡ false
    → IsDeny a
IsDeny-of a d p o = record { denies = d; protected = p; no_override = o }

abbrev Fails {ℓ} : {A : Type ℓ} → Result Assessment A → Type 0
Fails (ok _) = Unit
Fails (err a) = IsDeny a

accept_command-Fails : (s : Segment) (words : Text × List Text) → Fails (accept_command s words)
unfolding accept_command is_protected_deny_rule one_of bytes text_beq
accept_command-Fails s (cmd, args) = elim (Bool-cases (cmd == [])) [
  | inl e ↦ rw e (IsDeny-of _ refl refl refl)
  | inr e ↦ elim (Bool-cases (is_nested_interpreter cmd args)) [
    | inl n ↦ rw (e, n) (IsDeny-of _ refl refl refl)
    | inr n ↦ rw (e, n) tt
  ]
]

parse_segment-Fails : (s : Segment) → Fails (parse_segment s)
unfolding parse_segment is_protected_deny_rule one_of bytes text_beq
parse_segment-Fails s = elim (Result-cases (split_shell_words s.raw)) [
  | inl (e, f) ↦ rw (f, parse_words) (IsDeny-of _ refl refl refl)
  | inr (ws, f) ↦ rw (f, parse_words) (accept_command-Fails s (extract_command ws))
]

bind-Fails :
    {A B : Type 0} (m : Result Assessment A) (f : A → Result Assessment B)
    → Fails m
    → ((a : A) → Fails (f a))
    → Fails (m >>= f)
bind-Fails (ok a) f h k = k a
bind-Fails (err e) f h k = h

parse_segments-Fails : (segments : List Segment) → Fails (parse_segments segments)
unfolding parse_segments
parse_segments-Fails [] = tt
parse_segments-Fails (s ∷ segments) =
    bind-Fails (parse_segment s) _ (parse_segment-Fails s)
      λ parsed. bind-Fails (parse_segments segments) _ (parse_segments-Fails segments) λ rest. tt

-- An early return of the first loop is a deny.
pub parse_segments-IsDeny :
    (segments : List Segment) {a : Assessment} → parse_segments segments ≡ err a → IsDeny a
parse_segments-IsDeny segments h = rw h at (parse_segments-Fails segments)

-- An assessment that denies is one of the `return`s with a protected rule's id.
abbrev Sound : Assessment → Type 0
Sound a = a.decision ≡ policy_decision_deny → IsDeny a

grade-Sound : (segments : List Segment) → Sound (grade segments)
unfolding grade
grade-Sound segments = elim (Bool-cases (all_read_only segments)) [
  | inl e ↦ rw e (λ d. absurd (allow-ne-deny d))
  | inr e ↦ rw e (λ d. absurd (ask-ne-deny d))
]

after_destructive-Sound :
    (segments : List Segment) (found : Option Text) → Sound (after_destructive segments found)
unfolding after_destructive is_protected_deny_rule one_of bytes text_beq
after_destructive-Sound segments none = grade-Sound segments
after_destructive-Sound segments (some cmd) = λ d. IsDeny-of _ refl refl refl

assess_parsed-Sound :
    (parsed : Result Assessment (List Segment)) → Fails parsed → Sound (assess_parsed parsed)
unfolding assess_parsed is_protected_deny_rule one_of bytes text_beq
assess_parsed-Sound (err a) h = λ d. h
assess_parsed-Sound (ok segments) h = elim (Bool-cases (pipes_download_to_shell segments)) [
  | inl e ↦ rw e (λ d. IsDeny-of _ refl refl refl)
  | inr e ↦ rw e (after_destructive-Sound segments (first_destructive segments))
]

assess_segments-Sound : (split : Result SplitError (List Segment)) → Sound (assess_segments split)
unfolding assess_segments is_protected_deny_rule one_of bytes text_beq
assess_segments-Sound (err e) = λ d. IsDeny-of _ refl refl refl
assess_segments-Sound (ok []) = λ d. IsDeny-of _ refl refl refl
assess_segments-Sound (ok (s ∷ segments)) =
    assess_parsed-Sound _ (parse_segments-Fails (s ∷ segments))

-- Whenever the assessment of a command is to deny, it names a protected rule, and it allows no
-- override.
pub assess_shell_command-IsDeny :
    (command : Text)
    → (assess_shell_command command).decision ≡ policy_decision_deny
    → IsDeny (assess_shell_command command)
unfolding assess_shell_command
assess_shell_command-IsDeny command = assess_segments-Sound (split_shell_segments command)
