-- ===== src/Examples/PolicyRuns.antt =====
-- Runs of internal/policy/engine.go and of `shellQuote` of internal/builtin/registry.go.
use ops_terminator.Base.{
  Result, true, false, List, [], ◌∷◌, ◌++◌, ok, err, some, ◌≡◌, ◌↔◌, ◌⊎◌, inr, refl, text_beq, All,
}
use ops_terminator.Base.Text.{Text, bytes, trim_space, is_space, to_lower, one_of, first_non_empty}
use ops_terminator.Models.{PolicyRuleConfig, policy_decision_allow, policy_decision_deny}
use ops_terminator.Policy.Engine.{Engine, check, update_rules}
use ops_terminator.Policy.Engine.Enforced.{created, updated, check-IsDenied}
use mathlib.Core.List.{Perm}
use ops_terminator.Policy.Rules.{
  RuleError, normalize_items, normalize_item, is_protected_deny_rule, is_known_decision,
  default_rule_configs, normalize_rule_configs, lookup_last, sort_rule_configs,
}
use ops_terminator.Policy.Rules.Protected.{IsEnforced, normalize_rule_configs-IsEnforced}
use ops_terminator.Policy.Rules.Order.{
  IsSorted, sort_rule_configs-IsSorted, normalize_rule_configs-covers,
}
use ops_terminator.Policy.Assess.{assess_shell_command}
use ops_terminator.Policy.Assess.ReadOnly.{IsReadOnlyCommand, assess_shell_command_allow_iff}
use ops_terminator.Policy.Assess.Verdict.{IsDeny, assess_shell_command-IsDeny}
use ops_terminator.Policy.Assess.Quoted.{IsPlain, echo_quoted, echo_quoted-allow}
use ops_terminator.Policy.Segments
use ops_terminator.Policy.Redirect.{redirects}
use ops_terminator.Policy.Segments.{
  normal, Segment, segment_of, split_shell_segments, pipe, and_if, end_of_command,
}
use ops_terminator.Policy.Segments.Cuts.{Woven, split_shell_segments-Woven}
use ops_terminator.Policy.Commands.{is_read_only_command}
use ops_terminator.Policy.Commands.Tables.{IsHarmless, is_read_only_command-IsHarmless}
use ops_terminator.Policy.Words.{split_shell_words}
use ops_terminator.Builtin.{shell_quote}
use ops_terminator.Builtin.Quoting.{
  segments-shell_quote, redirects-shell_quote, non_empty, quote_all, split_shell_words-quote_all,
}
use ops_terminator.Examples.{run_check, shell, default_engine}

-- A configuration of one rule.
abbrev config : Text → Text → PolicyRuleConfig
config id decision = record {
  id = id;
  category = [];
  severity = [];
  decision = decision;
  reason = [];
  safer_alternative = [];
  override_allowed = true;
  description = [];
  updated_at = 0;
}

-- An attempt to relax a rule that denies, and a change that is accepted.
abbrev relaxed : List PolicyRuleConfig
relaxed = config (bytes "destructive_command_deny") (bytes "allow") ∷ []

abbrev stricter : List PolicyRuleConfig
stricter =
    config (bytes "readonly_shell_allow") (bytes "ask")
    ∷ config (bytes " destructive_command_deny") (bytes "deny")
    ∷ []

abbrev engine : Engine
engine = (update_rules 3 stricter (update_rules 2 relaxed default_engine).0).0

abbrev danger : Text
danger = bytes "cd /tmp && rm -rf /var"

danger_denied : (assess_shell_command (trim_space danger)).decision ≡ policy_decision_deny
unfolding run_check
danger_denied = refl

check-IsDenied_example :
    ((check engine (shell "cd /tmp && rm -rf /var")).decision ≡ policy_decision_deny)
    × ((check engine (shell "cd /tmp && rm -rf /var")).override_allowed ≡ false)
check-IsDenied_example =
    check-IsDenied engine (shell "cd /tmp && rm -rf /var")
      (updated 3 stricter (updated 2 relaxed (created 1 []))) refl (inr danger_denied)

assess_shell_command-IsDeny_example : IsDeny (assess_shell_command (trim_space danger))
assess_shell_command-IsDeny_example = assess_shell_command-IsDeny (trim_space danger) danger_denied

assess_shell_command_allow_iff_example :
    ((assess_shell_command (bytes "ps -ef | grep 'nginx' 2>/dev/null")).decision
      ≡ policy_decision_allow)
    ↔ IsReadOnlyCommand (bytes "ps -ef | grep 'nginx' 2>/dev/null")
assess_shell_command_allow_iff_example =
    assess_shell_command_allow_iff (bytes "ps -ef | grep 'nginx' 2>/dev/null")

-- The segments of a command with quotes.
abbrev two_segments : List Segment
two_segments =
    segment_of (bytes "ps -ef") pipe
    ∷ segment_of (bytes "grep 'a;b'") and_if
    ∷ segment_of (bytes "id") end_of_command
    ∷ []

two_segments_split : split_shell_segments (bytes "ps -ef | grep 'a;b' && id") ≡ ok two_segments
unfolding run_check
two_segments_split = refl

split_shell_segments-Woven_example :
    ((two_segments ≡ []) × (trim_space (bytes "ps -ef | grep 'a;b' && id") ≡ []))
    ⊎ Woven two_segments (bytes "ps -ef | grep 'a;b' && id")
split_shell_segments-Woven_example =
    split_shell_segments-Woven (bytes "ps -ef | grep 'a;b' && id") two_segments_split

-- A substitution between double quotes.
abbrev substitution : Text
substitution = bytes "$(halt)`"

substitution-IsPlain : IsPlain substitution
unfolding run_check
substitution-IsPlain = (
  (refl, refl),
  (
    (refl, refl),
    (
      (refl, refl),
      ((refl, refl), ((refl, refl), ((refl, refl), ((refl, refl), ((refl, refl), tt))))),
    ),
  ),
)

echo_quoted-allow_example :
    (assess_shell_command (echo_quoted substitution)).decision ≡ policy_decision_allow
echo_quoted-allow_example = echo_quoted-allow substitution substitution-IsPlain

-- The rules of a configuration that is accepted.
abbrev rules_of : Result RuleError (List PolicyRuleConfig) → List PolicyRuleConfig
rules_of (ok rules) = rules
rules_of (err _) = []

abbrev stricter_rules : List PolicyRuleConfig
stricter_rules = rules_of (normalize_rule_configs 3 stricter)

stricter_accepted : normalize_rule_configs 3 stricter ≡ ok stricter_rules
unfolding normalize_rule_configs normalize_items normalize_item is_protected_deny_rule
    is_known_decision lookup_last bytes trim_space is_space to_lower one_of text_beq first_non_empty
stricter_accepted = refl

normalize_rule_configs-IsEnforced_example : All IsEnforced stricter_rules
normalize_rule_configs-IsEnforced_example =
    normalize_rule_configs-IsEnforced 3 stricter stricter_accepted

normalize_rule_configs-covers_example :
    All
      (λ d. (c : PolicyRuleConfig) × (lookup_last d.id stricter_rules ≡ some c))
      (default_rule_configs 3)
normalize_rule_configs-covers_example = normalize_rule_configs-covers 3 stricter stricter_accepted

abbrev out_of_order : List PolicyRuleConfig
out_of_order =
    config (bytes "nested_interpreter_deny") (bytes "deny")
    ∷ config (bytes "empty_shell_deny") (bytes "deny")
    ∷ []

sort_rule_configs-IsSorted_example :
    IsSorted (sort_rule_configs out_of_order) × Perm (sort_rule_configs out_of_order) out_of_order
sort_rule_configs-IsSorted_example = sort_rule_configs-IsSorted out_of_order

systemctl_status :
    is_read_only_command (bytes "systemctl") (bytes "status" ∷ bytes "nginx" ∷ []) ≡ true
unfolding run_check
systemctl_status = refl

is_read_only_command-IsHarmless_example :
    IsHarmless (bytes "systemctl") (bytes "status" ∷ bytes "nginx" ∷ [])
is_read_only_command-IsHarmless_example =
    is_read_only_command-IsHarmless (bytes "systemctl") (bytes "status" ∷ bytes "nginx" ∷ [])
      systemctl_status

-- Values that a shell would read as more than one word, and an empty one.
abbrev values : List Text
values = bytes "a b;c" ∷ [] ∷ bytes "it's $(x)" ∷ bytes "\\" ∷ []

split_shell_words-quote_all_example : split_shell_words (quote_all values) ≡ ok (non_empty values)
split_shell_words-quote_all_example = split_shell_words-quote_all values

segments-shell_quote_example :
    ops_terminator.Policy.Segments.scan false
      (ops_terminator.Policy.Segments.scan_at normal (bytes "echo ") [])
      (shell_quote (bytes "it's; $(x) | &") ++ bytes " | wc")
    ≡ ops_terminator.Policy.Segments.scan false
        (ops_terminator.Policy.Segments.scan_at normal
          (bytes "echo " ++ shell_quote (bytes "it's; $(x) | &"))
          [])
        (bytes " | wc")
segments-shell_quote_example =
    segments-shell_quote (bytes "it's; $(x) | &") (bytes "echo ") (bytes " | wc") []

redirects-shell_quote_example :
    redirects false normal (shell_quote (bytes "> /etc/passwd'") ++ bytes " > out")
    ≡ redirects false normal (bytes " > out")
redirects-shell_quote_example = redirects-shell_quote (bytes "> /etc/passwd'") (bytes " > out")
