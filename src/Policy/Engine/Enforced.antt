-- ===== src/Policy/Engine/Enforced.antt =====
-- No policy that an operator can configure relaxes a verdict of a protected deny rule.
use ops_terminator.Base.{
  ℕ, true, false, List, [], ◌∷◌, Option, none, some, inl, inr, ◌≡◌, ◌⊎◌, refl, sym, ◌∙◌, ◌==◌,
  text_eq, text_beq, ==_iff, Bool-cases, Result-cases, All,
}
use mathlib.Core.Bool.{false≢true}
use ops_terminator.Base.Text.{Text, bytes, trim_space, first_non_empty, one_of}
use ops_terminator.Models.{ActionPreview, PolicyRule, PolicyRuleConfig, policy_decision_deny}
use ops_terminator.Policy.Rules.{is_protected_deny_rule, normalize_rule_configs, lookup_last}
use ops_terminator.Policy.Rules.Protected.{
  IsEnforced, normalize_rule_configs-IsEnforced, lookup_last-All,
}
use ops_terminator.Policy.Assess.Verdict.{assess_shell_command-IsDeny}
use ops_terminator.Policy.Assess.{assess_shell_command}
use ops_terminator.Policy.Engine.{
  Engine, replace_rules, update_rules, new, configured, new_policy_rule, check_run_shell, check,
}

-- The engines that `New` and calls of `UpdateRules` give, whether the calls fail or not.
pub data IsConfigured : Engine → Type 0 where
  created : (now : ℕ) (configs : List PolicyRuleConfig) → IsConfigured (new now configs)
  updated :
      (now : ℕ) (rules : List PolicyRuleConfig) {e : Engine}
      → IsConfigured e
      → IsConfigured (update_rules now rules e).0

update_rules-IsEnforced :
    (now : ℕ) (rules : List PolicyRuleConfig) (e : Engine)
    → All IsEnforced e.rules
    → All IsEnforced (update_rules now rules e).0.rules
unfolding update_rules
update_rules-IsEnforced now rules e h = elim (Result-cases (normalize_rule_configs now rules)) [
  | inl (why, f) ↦ rw (f, replace_rules) h
  | inr (ms, f) ↦ rw (f, replace_rules) (normalize_rule_configs-IsEnforced now rules f)
]

IsConfigured-IsEnforced : {e : Engine} → IsConfigured e → All IsEnforced e.rules
unfolding new
IsConfigured-IsEnforced (created now configs) = update_rules-IsEnforced now _ _ tt
IsConfigured-IsEnforced (updated now rules {e} c) =
    update_rules-IsEnforced now rules e (IsConfigured-IsEnforced c)

first_non_empty-deny :
    (rest : List Text) → first_non_empty (policy_decision_deny ∷ rest) ≡ policy_decision_deny
unfolding first_non_empty trim_space bytes text_beq
first_non_empty-deny rest = refl

configured-deny :
    (found : Option PolicyRuleConfig) (rule : PolicyRule)
    → ((c : PolicyRuleConfig)
        → found ≡ some c
        → (c.decision ≡ policy_decision_deny) × (c.override_allowed ≡ false))
    → rule.decision ≡ policy_decision_deny
    → rule.override_allowed ≡ false
    → ((configured found rule).decision ≡ policy_decision_deny)
      × ((configured found rule).override_allowed ≡ false)
unfolding configured
configured-deny none rule h d o = (d, o)
configured-deny (some c) rule h d o =
    let (e, f) = h c refl in (rw e (first_non_empty-deny (rule.decision ∷ [])), f)

new_policy_rule-deny :
    (e : Engine) (rule : PolicyRule)
    → All IsEnforced e.rules
    → is_protected_deny_rule rule.rule_id ≡ true
    → rule.decision ≡ policy_decision_deny
    → rule.override_allowed ≡ false
    → ((new_policy_rule e rule).decision ≡ policy_decision_deny)
      × ((new_policy_rule e rule).override_allowed ≡ false)
unfolding new_policy_rule
new_policy_rule-deny e rule h p = configured-deny (lookup_last rule.rule_id e.rules) rule enforced
  where
    enforced :
        (c : PolicyRuleConfig)
        → lookup_last rule.rule_id e.rules ≡ some c
        → (c.decision ≡ policy_decision_deny) × (c.override_allowed ≡ false)
    enforced c f =
        let (i, same) = lookup_last-All IsEnforced rule.rule_id e.rules h f in
        let q : is_protected_deny_rule c.id ≡ true = rw same p in (i.denies q, i.no_override q)

-- A command that `Check` is asked about and that the built-in assessment denies.
abbrev pub IsDenied : Text → Type 0
IsDenied command = (command ≡ []) ⊎ ((assess_shell_command command).decision ≡ policy_decision_deny)

check_run_shell-deny :
    (e : Engine) (preview : ActionPreview)
    → All IsEnforced e.rules
    → IsDenied (trim_space preview.command_preview)
    → ((check_run_shell e preview).decision ≡ policy_decision_deny)
      × ((check_run_shell e preview).override_allowed ≡ false)
unfolding check_run_shell
check_run_shell-deny e preview h d = elim (Bool-cases (trim_space preview.command_preview == [])) [
  | inl blank ↦ rw blank (
      unfold is_protected_deny_rule one_of bytes text_beq in
      new_policy_rule-deny e _ h refl refl refl)
  | inr some_text ↦ elim d [
    | inl none_left ↦
        absurd (
          false≢true (sym some_text ∙ (==_iff (trim_space preview.command_preview) []).1 none_left))
    | inr denied ↦
        let i = assess_shell_command-IsDeny _ denied in
        rw some_text (new_policy_rule-deny e _ h i.protected denied i.no_override)
  ]
]

-- Whatever was configured, accepted or refused, a shell command that the built-in rules deny is
-- denied by `Check`, and no override of the verdict is allowed.
pub check-IsDenied :
    (e : Engine) (preview : ActionPreview)
    → IsConfigured e
    → preview.tool_name ≡ bytes "run_shell"
    → IsDenied (trim_space preview.command_preview)
    → ((check e preview).decision ≡ policy_decision_deny)
      × ((check e preview).override_allowed ≡ false)
unfolding check
check-IsDenied e preview c shell d =
    rw ((==_iff preview.tool_name (bytes "run_shell")).1 shell)
      (check_run_shell-deny e preview (IsConfigured-IsEnforced c) d)
