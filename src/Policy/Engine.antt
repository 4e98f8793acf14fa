-- ===== src/Policy/Engine.antt =====
-- `Engine` of internal/policy/engine.go. The lock around `rules` is not modelled: an operation
-- reads or replaces the whole map at once.
pub mod Enforced
use ops_terminator.Base.{
  ℕ, true, false, List, [], ◌∷◌, Option, none, some, Result, ok, err, ◌==◌, text_eq, if◌then◌else◌,
  is_empty,
}
use ops_terminator.Base.Text.{Text, bytes, trim_space, first_non_empty}
use ops_terminator.Models.{
  ActionPreview, PolicyRule, PolicyRuleConfig, policy_decision_allow, policy_decision_ask,
  policy_decision_deny,
}
use ops_terminator.Policy.Rules.{
  RuleError, seen, sort_rule_configs, lookup_last, normalize_rule_configs, default_rule_configs,
}
use ops_terminator.Policy.Assess.{Assessment, assess_shell_command}

-- `Engine`; the map as the list that it was filled from, in order.
pub record Engine : Type 0 where
  pub rules : List PolicyRuleConfig

-- The engine takes the normalised rules, or stays as it is.
replace_rules : Engine → Result RuleError (List PolicyRuleConfig) → Engine × Option RuleError
replace_rules e (ok normalized) = (record { rules = normalized }, none)
replace_rules e (err why) = (e, some why)

-- `UpdateRules`: the new engine, and the error if there is one.
unfoldable pub update_rules : ℕ → List PolicyRuleConfig → Engine → Engine × Option RuleError
unfolding replace_rules
update_rules now rules e = replace_rules e (normalize_rule_configs now rules)

-- `New(configs)`, with the first configuration given, `[]` if there is none. An error of
-- `UpdateRules` is dropped, and the map stays empty.
unfoldable pub new : ℕ → List PolicyRuleConfig → Engine
unfolding update_rules
new now configs =
    (update_rules now (if is_empty configs then default_rule_configs now else configs)
      (record { rules = [] })).0

-- The values of the map: of the items with one id, the last.
unfoldable pub map_values : List PolicyRuleConfig → List PolicyRuleConfig
map_values [] = []
map_values (item ∷ items) =
    let rest = map_values items in if seen item.id items then rest else item ∷ rest

-- `RuleConfigs`.
unfoldable pub rule_configs : Engine → List PolicyRuleConfig
unfolding map_values
rule_configs e = sort_rule_configs (map_values e.rules)

-- The configured values of `newPolicyRule` put over the given ones.
unfoldable pub configured : Option PolicyRuleConfig → PolicyRule → PolicyRule
configured none rule = rule
configured (some config) rule = record rule {
  category = first_non_empty (config.category ∷ rule.category ∷ []);
  severity = first_non_empty (config.severity ∷ rule.severity ∷ []);
  decision = first_non_empty (config.decision ∷ rule.decision ∷ []);
  reason = first_non_empty (config.reason ∷ rule.reason ∷ []);
  safer_alternative = first_non_empty (config.safer_alternative ∷ rule.safer_alternative ∷ []);
  override_allowed = config.override_allowed;
}

-- `newPolicyRule`.
unfoldable pub new_policy_rule : Engine → PolicyRule → PolicyRule
unfolding configured
new_policy_rule e rule = configured (lookup_last rule.rule_id e.rules) rule

abbrev pub empty_command_rule : Text → PolicyRule
empty_command_rule scope = record {
  rule_id = bytes "empty_shell_deny";
  category = bytes "shell";
  severity = bytes "medium";
  decision = policy_decision_deny;
  reason = bytes "空命令已拒绝执行。";
  scope = scope;
  safer_alternative = bytes "请提供明确的 Linux 命令。";
  override_allowed = false;
}

-- The fields of an assessment, with the command as the scope.
abbrev pub assessed_rule : Text → Assessment → PolicyRule
assessed_rule command a = record {
  rule_id = a.rule_id;
  category = a.category;
  severity = a.severity;
  decision = a.decision;
  reason = a.reason;
  scope = command;
  safer_alternative = a.safer_alternative;
  override_allowed = a.override_allowed;
}

-- `checkRunShell`.
unfoldable pub check_run_shell : Engine → ActionPreview → PolicyRule
check_run_shell e preview =
    let command = trim_space preview.command_preview in
    if command == []
    then new_policy_rule e (empty_command_rule preview.tool_name)
    else new_policy_rule e (assessed_rule command (assess_shell_command command))

abbrev pub read_only_builtin_rule : Text → PolicyRule
read_only_builtin_rule scope = record {
  rule_id = bytes "readonly_builtin_allow";
  category = bytes "builtin";
  severity = bytes "low";
  decision = policy_decision_allow;
  reason = bytes "只读运维工具允许直接执行。";
  scope = scope;
  safer_alternative = [];
  override_allowed = false;
}

abbrev pub mutating_builtin_rule : ActionPreview → PolicyRule
mutating_builtin_rule preview = record {
  rule_id = bytes "mutating_builtin_ask";
  category = bytes "builtin";
  severity = bytes "high";
  decision = policy_decision_ask;
  reason = first_non_empty (preview.risk_hint ∷ bytes "该操作可能修改系统状态，需要审批。" ∷ []);
  scope = preview.tool_name;
  safer_alternative = bytes "请先执行只读检查，确认影响范围后再批准变更。";
  override_allowed = true;
}

-- `Check`.
unfoldable pub check : Engine → ActionPreview → PolicyRule
unfolding check_run_shell
check e preview =
    if preview.tool_name == bytes "run_shell"
    then check_run_shell e preview
    else if preview.read_only
    then new_policy_rule e (read_only_builtin_rule preview.tool_name)
    else new_policy_rule e (mutating_builtin_rule preview)
