-- ===== src/Policy/Rules.antt =====
-- The rule configurations of internal/policy/engine.go: the defaults, and what an operator may change
-- of them. A call of `time.Now()` is the argument `now`.
pub mod Protected
pub mod Order
use ops_terminator.Base.{
  ℕ, Bool, true, false, not, ◌&&◌, List, [], ◌∷◌, ◌++◌, Option, none, some, Result, ok, err, ◌>>=◌,
  ◌==◌, nat_eq, text_eq, ltb, if◌then◌else◌, suc, zero, or_else,
}
use ops_terminator.Base.Text.{Text, bytes, trim_space, one_of, first_non_empty}
use ops_terminator.Models.{
  PolicyRuleConfig, policy_decision_allow, policy_decision_ask, policy_decision_deny,
}

-- `ruleConfig`.
abbrev pub rule_config :
    Text → Text → Text → Text → Text → Text → Bool → Text → ℕ → PolicyRuleConfig
rule_config id category severity decision reason safer_alternative override description now =
    record {
      id = id;
      category = category;
      severity = severity;
      decision = decision;
      reason = reason;
      safer_alternative = safer_alternative;
      override_allowed = override;
      description = description;
      updated_at = now;
    }

abbrev pub default_readonly_builtin_allow : ℕ → PolicyRuleConfig
default_readonly_builtin_allow =
    rule_config (bytes "readonly_builtin_allow") (bytes "builtin") (bytes "low")
      policy_decision_allow (bytes "只读运维工具允许直接执行。") (bytes "") false
      (bytes "Allow explicit read-only builtin tools.")

abbrev pub default_mutating_builtin_ask : ℕ → PolicyRuleConfig
default_mutating_builtin_ask =
    rule_config (bytes "mutating_builtin_ask") (bytes "builtin") (bytes "high") policy_decision_ask
      (bytes "该操作可能修改系统状态，需要审批。") (bytes "请先执行只读检查，确认影响范围后再批准变更。") true
      (bytes "Require human approval for builtin tools that can change host state.")

abbrev pub default_readonly_shell_allow : ℕ → PolicyRuleConfig
default_readonly_shell_allow =
    rule_config (bytes "readonly_shell_allow") (bytes "shell") (bytes "low") policy_decision_allow
      (bytes "命令经安全解析后仅包含显式只读诊断步骤，允许直接执行。") (bytes "") false
      (bytes "Allow parsed shell commands that only contain explicit read-only diagnostics.")

abbrev pub default_mutating_shell_ask : ℕ → PolicyRuleConfig
default_mutating_shell_ask =
    rule_config (bytes "mutating_shell_ask") (bytes "shell") (bytes "high") policy_decision_ask
      (bytes "命令包含可能修改系统状态的步骤，需人工确认后执行。") (bytes "优先拆成更小的只读 run_shell 诊断；若确需变更，请走审批执行。") true
      (bytes
        "Require approval for shell commands that may modify files, services, users, packages, or system state.")

abbrev pub default_destructive_command_deny : ℕ → PolicyRuleConfig
default_destructive_command_deny =
    rule_config (bytes "destructive_command_deny") (bytes "shell") (bytes "critical")
      policy_decision_deny (bytes "命令包含高危或破坏性操作，已拒绝执行。")
      (bytes "请先执行只读诊断命令缩小影响范围，再用审批内置动作或更小范围命令处理。") false
      (bytes
        "Reject destructive commands such as filesystem formatting, shutdown, reboot, raw block writes, or broad root deletion.")

abbrev pub default_remote_download_pipe_shell_deny : ℕ → PolicyRuleConfig
default_remote_download_pipe_shell_deny =
    rule_config (bytes "remote_download_pipe_shell_deny") (bytes "shell") (bytes "critical")
      policy_decision_deny (bytes "检测到远程下载内容直接通过管道交给 shell，已拒绝执行。") (bytes "请先单独下载并检查内容，再执行明确命令。")
      false (bytes "Reject remote download output piped directly into a shell interpreter.")

abbrev pub default_nested_interpreter_deny : ℕ → PolicyRuleConfig
default_nested_interpreter_deny =
    rule_config (bytes "nested_interpreter_deny") (bytes "shell") (bytes "high")
      policy_decision_deny (bytes "命令尝试通过解释器再次嵌套执行，已拒绝执行。")
      (bytes "请直接把要执行的命令展开成显式 run_shell，而不是再包一层解释器。") false
      (bytes
        "Reject nested shell or scripting interpreter execution through flags such as -c and -e.")

abbrev pub default_complex_shell_syntax_deny : ℕ → PolicyRuleConfig
default_complex_shell_syntax_deny =
    rule_config (bytes "complex_shell_syntax_deny") (bytes "shell") (bytes "high")
      policy_decision_deny (bytes "命令包含未支持或不安全的 shell 语法，已拒绝执行。")
      (bytes "请改成显式、扁平的命令，不要使用命令替换、后台执行、here-doc 或嵌套解释器。") false
      (bytes
        "Reject unsupported shell constructs such as command substitution, here-docs, background execution, or process substitution.")

abbrev pub default_empty_shell_deny : ℕ → PolicyRuleConfig
default_empty_shell_deny =
    rule_config (bytes "empty_shell_deny") (bytes "shell") (bytes "medium") policy_decision_deny
      (bytes "空命令已拒绝执行。") (bytes "请提供明确的 Linux 命令。") false (bytes "Reject empty shell commands.")

abbrev pub default_shell_parse_error_deny : ℕ → PolicyRuleConfig
default_shell_parse_error_deny =
    rule_config (bytes "shell_parse_error_deny") (bytes "shell") (bytes "medium")
      policy_decision_deny (bytes "命令解析失败，已拒绝执行。") (bytes "请改用更直接的命令表达，避免复杂转义。") false
      (bytes "Reject shell commands that cannot be parsed safely.")

abbrev pub default_missing_executable_deny : ℕ → PolicyRuleConfig
default_missing_executable_deny =
    rule_config (bytes "missing_executable_deny") (bytes "shell") (bytes "medium")
      policy_decision_deny (bytes "命令缺少可执行程序，已拒绝执行。") (bytes "请提供显式命令，不要只传环境变量或残缺片段。") false
      (bytes "Reject shell snippets without an executable command.")

-- `DefaultRuleConfigs`.
abbrev pub default_rule_configs : ℕ → List PolicyRuleConfig
default_rule_configs now =
    default_readonly_builtin_allow now
    ∷ default_mutating_builtin_ask now
    ∷ default_readonly_shell_allow now
    ∷ default_mutating_shell_ask now
    ∷ default_destructive_command_deny now
    ∷ default_remote_download_pipe_shell_deny now
    ∷ default_nested_interpreter_deny now
    ∷ default_complex_shell_syntax_deny now
    ∷ default_empty_shell_deny now
    ∷ default_shell_parse_error_deny now
    ∷ default_missing_executable_deny now
    ∷ []

-- The ids that `isProtectedDenyRule` names.
abbrev pub protected_deny_rules : List Text
protected_deny_rules =
    bytes "destructive_command_deny"
    ∷ bytes "remote_download_pipe_shell_deny"
    ∷ bytes "nested_interpreter_deny"
    ∷ bytes "complex_shell_syntax_deny"
    ∷ bytes "empty_shell_deny"
    ∷ bytes "shell_parse_error_deny"
    ∷ bytes "missing_executable_deny"
    ∷ []

-- `isProtectedDenyRule`.
unfoldable pub is_protected_deny_rule : Text → Bool
is_protected_deny_rule id = one_of id protected_deny_rules

-- `isKnownDecision`.
unfoldable pub is_known_decision : Text → Bool
is_known_decision value =
    one_of value (policy_decision_allow ∷ policy_decision_ask ∷ policy_decision_deny ∷ [])

-- A lookup in a `map[string]PolicyRuleConfig` that was filled from the list in order, so that a
-- later item replaces an earlier one of the same id.
unfoldable pub lookup_last : Text → List PolicyRuleConfig → Option PolicyRuleConfig
lookup_last id [] = none
lookup_last id (item ∷ items) =
    or_else (lookup_last id items) (if item.id == id then some item else none)

-- The errors of `normalizeRuleConfigs`, by their messages.
pub data RuleError : Type 0 where
  id_required : RuleError
  unknown_rule : Text → RuleError
  protected_rule : Text → RuleError
  unsupported_decision : Text → Text → RuleError

-- The item with its blanks trimmed and its empty fields filled from the default.
unfoldable pub merge_with_base : PolicyRuleConfig → PolicyRuleConfig → PolicyRuleConfig
merge_with_base item base = record item {
  category = first_non_empty (trim_space item.category ∷ base.category ∷ []);
  severity = first_non_empty (trim_space item.severity ∷ base.severity ∷ []);
  decision = first_non_empty (trim_space item.decision ∷ base.decision ∷ []);
  reason = trim_space item.reason;
  safer_alternative = trim_space item.safer_alternative;
  description = first_non_empty (trim_space item.description ∷ base.description ∷ []);
}

-- The guards on a merged item, and its last two assignments.
unfoldable pub accept_item : ℕ → PolicyRuleConfig → Result RuleError PolicyRuleConfig
accept_item now item =
    if is_protected_deny_rule item.id && not (item.decision == policy_decision_deny)
    then err (protected_rule item.id)
    else if not (is_known_decision item.decision)
    then err (unsupported_decision item.id item.decision)
    else ok (record item {
      override_allowed = if is_protected_deny_rule item.id then false else item.override_allowed;
      updated_at = if item.updated_at == 0 then now else item.updated_at;
    })

-- The branch on whether the id has a default.
merge_found : ℕ → PolicyRuleConfig → Option PolicyRuleConfig → Result RuleError PolicyRuleConfig
unfolding merge_with_base accept_item
merge_found now item none = err (unknown_rule item.id)
merge_found now item (some base) = accept_item now (merge_with_base item base)

-- One round of the first loop of `normalizeRuleConfigs`.
unfoldable pub normalize_item : ℕ → PolicyRuleConfig → Result RuleError PolicyRuleConfig
unfolding merge_found
normalize_item now item =
    let item' = record item { id = trim_space item.id } in
    if item'.id == []
    then err id_required
    else merge_found now item' (lookup_last item'.id (default_rule_configs now))

-- The first loop.
unfoldable pub normalize_items :
    ℕ → List PolicyRuleConfig → Result RuleError (List PolicyRuleConfig)
normalize_items now [] = ok []
normalize_items now (item ∷ items) = do
  item' ← normalize_item now item
  items' ← normalize_items now items
  ok (item' ∷ items')

-- `seen[id]`, from the items merged so far.
unfoldable pub seen : Text → List PolicyRuleConfig → Bool
seen id [] = false
seen id (item ∷ items) = if item.id == id then true else seen id items

-- The second loop: the defaults that were not seen.
unfoldable pub unseen : List PolicyRuleConfig → List PolicyRuleConfig → List PolicyRuleConfig
unseen merged [] = []
unseen merged (item ∷ items) =
    let rest = unseen merged items in if seen item.id merged then rest else item ∷ rest

-- `order[id]` of `sortRuleConfigs`, counted from `index`; 0 for an id that has no default.
unfoldable pub order_from : ℕ → Text → List PolicyRuleConfig → ℕ
order_from index id [] = 0
order_from index id (item ∷ items) =
    if item.id == id then index else order_from (suc index) id items

unfoldable pub rule_order : PolicyRuleConfig → ℕ
unfolding order_from
rule_order item = order_from 0 item.id (default_rule_configs 0)

-- The loop over `j`: what ends in the place of `items[i]`, and what stands behind it.
unfoldable pub place_least :
    PolicyRuleConfig → List PolicyRuleConfig → PolicyRuleConfig × List PolicyRuleConfig
place_least least [] = (least, [])
place_least least (item ∷ items) =
    let swap = ltb (rule_order item) (rule_order least) in
    let (least', items') = place_least (if swap then item else least) items in
    (least', (if swap then least else item) ∷ items')

-- The loop over `i`, for as many rounds as there are items.
unfoldable pub sort_rounds : ℕ → List PolicyRuleConfig → List PolicyRuleConfig
unfolding place_least
sort_rounds zero items = items
sort_rounds (suc n) [] = []
sort_rounds (suc n) (item ∷ items) =
    let (least, items') = place_least item items in least ∷ sort_rounds n items'

abbrev pub count_items : List PolicyRuleConfig → ℕ
count_items [] = 0
count_items (_ ∷ items) = suc (count_items items)

-- `sortRuleConfigs`.
unfoldable pub sort_rule_configs : List PolicyRuleConfig → List PolicyRuleConfig
unfolding sort_rounds
sort_rule_configs items = sort_rounds (count_items items) items

-- `normalizeRuleConfigs`.
unfoldable pub normalize_rule_configs :
    ℕ → List PolicyRuleConfig → Result RuleError (List PolicyRuleConfig)
normalize_rule_configs now rules = do
  merged ← normalize_items now rules
  ok (sort_rule_configs (merged ++ unseen merged (default_rule_configs now)))
