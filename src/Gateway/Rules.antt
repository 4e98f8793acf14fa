-- ===== src/Gateway/Rules.antt =====
-- The handlers of automations of internal/gateway/service.go.
pub mod Valid
use ops_terminator.Base.{
  ℕ, Bool, true, false, not, ◌&&◌, List, [], ◌∷◌, Option, none, some, Result, ok, err, ◌==◌,
  text_eq, if◌then◌else◌, ltb,
}
use ops_terminator.Base.Int.{ℤ, pos, is_positive}
use ops_terminator.Base.Text.{Text, bytes, trim_space, first_non_empty}
use ops_terminator.Models.{Run}
use ops_terminator.Models.Hosts.{Host}
use ops_terminator.Models.Sessions.{Float64, KnowledgeItem}
use ops_terminator.Models.Automations.{
  AutomationRule, AutomationRuleView, AutomationSample, AutomationTestResult,
  trigger_type_threshold,
}
use ops_terminator.Store.{Disk, list_objects, delete_object}
use ops_terminator.Gateway.Context.{Builder}
use ops_terminator.Gateway.Metrics.{
  Sampler, automation_metric_command, is_supported_automation_operator, sample_automation_metric,
  automation_threshold_matched, is_automation_cooldown_blocked,
}
use ops_terminator.Gateway.Service.{
  ◌>>=◌, World, GatewayError, host_not_found, automation_not_found, unsupported_metric,
  unsupported_operator, unsupported_trigger_type, name_required, host_required, metric_required,
  operator_required, id_required, outside_error, M, return, fail, ignore, lift, commit, found_or,
  now, fresh_id, get_host, get_automation, save_automation,
}
use ops_terminator.Gateway.Automation.{create_automation_run, with_status, with_trigger}

-- The trimming at the start of `SaveAutomation`.
unfoldable pub trim_rule : AutomationRule → AutomationRule
trim_rule rule = record rule {
  id = trim_space rule.id;
  name = trim_space rule.name;
  host_id = trim_space rule.host_id;
  trigger_type = first_non_empty (trim_space rule.trigger_type ∷ trigger_type_threshold ∷ []);
  metric = trim_space rule.metric;
  operator = trim_space rule.operator;
  prompt_template = trim_space rule.prompt_template;
  session_strategy = first_non_empty (trim_space rule.session_strategy ∷ bytes "reuse" ∷ []);
}

-- The checks of `SaveAutomation` that need no store.
unfoldable pub check_rule : AutomationRule → Option GatewayError
check_rule rule =
    if rule.name == []
    then some name_required
    else if rule.host_id == []
    then some host_required
    else if rule.metric == []
    then some metric_required
    else if rule.operator == []
    then some operator_required
    else if not (rule.trigger_type == trigger_type_threshold)
    then some (unsupported_trigger_type rule.trigger_type)
    else elim (automation_metric_command rule.metric) [
      | none ↦ some (unsupported_metric rule.metric)
      | some _ ↦
          if not (is_supported_automation_operator rule.operator)
          then some (unsupported_operator rule.operator)
          else none
    ]

abbrev pub checked : Option GatewayError → M (Unit {0})
checked none = return tt
checked (some e) = fail e

-- The defaults of `SaveAutomation`.
unfoldable pub fill_rule : AutomationRule → AutomationRule
fill_rule rule = record rule {
  window_minutes = if is_positive rule.window_minutes then rule.window_minutes else pos 5;
  cooldown_minutes = if is_positive rule.cooldown_minutes then rule.cooldown_minutes else pos 15;
  prompt_template =
      if rule.prompt_template == [] then bytes "阈值触发：请基于当前主机状态排查并处理异常。" else rule.prompt_template;
}

-- What a rule keeps of the one that it replaces.
unfoldable pub keep_history : ℕ → Option AutomationRule → AutomationRule → AutomationRule
keep_history at none rule = record rule { created_at = at; updated_at = at }
keep_history at (some current) rule = record rule {
  created_at = current.created_at;
  last_triggered_at = current.last_triggered_at;
  last_run_id = current.last_run_id;
  last_status = current.last_status;
  last_observed_value = current.last_observed_value;
  session_id = current.session_id;
  updated_at = at;
}

-- `host.DisplayName`, where an error is dropped.
unfoldable pub display_name_of : Result GatewayError (Option Host) → Text
display_name_of (ok (some host)) = host.display_name
display_name_of _ = []

-- `sort.Slice` of `ListAutomations`, by `UpdatedAt`, the last first.
unfoldable pub insert_by_updated :
    AutomationRuleView → List AutomationRuleView → List AutomationRuleView
insert_by_updated v [] = v ∷ []
insert_by_updated v (x ∷ xs) =
    let later = insert_by_updated v xs in
    if ltb v.rule.updated_at x.rule.updated_at then x ∷ later else v ∷ x ∷ xs

unfoldable pub sort_by_updated : List AutomationRuleView → List AutomationRuleView
unfolding insert_by_updated
sort_by_updated [] = []
sort_by_updated (v ∷ vs) = insert_by_updated v (sort_by_updated vs)

module _ (clock : ℕ → ℕ) (disk : Disk) where
  -- The id of a rule, a new one where it has none.
  unfoldable pub with_id : AutomationRule → M AutomationRule
  with_id rule =
      if rule.id == []
      then (do id ← fresh_id clock (bytes "automation"); return (record rule { id = id }))
      else return rule

  -- `SaveAutomation` once the rule is trimmed.
  unfoldable pub save_trimmed : AutomationRule → M AutomationRule
  unfolding with_id check_rule fill_rule keep_history
  save_trimmed trimmed = do
    rule ← with_id trimmed
    _ ← checked (check_rule rule)
    host ← get_host disk rule.host_id
    _ ← found_or (host_not_found rule.host_id) host
    at ← now clock
    current ← get_automation disk rule.id
    let kept = keep_history at current (fill_rule rule)
    _ ← save_automation disk kept
    return kept

  -- `SaveAutomation` of the service.
  unfoldable pub save_automation_rule : AutomationRule → M AutomationRule
  unfolding save_trimmed trim_rule
  save_automation_rule rule = save_trimmed (trim_rule rule)

  -- `DeleteAutomation`.
  unfoldable pub delete_automation : Text → M (Unit {0})
  delete_automation given w =
      let id = trim_space given in
      if id == []
      then (w, err id_required)
      else commit (λ t. record w { automations = t }) w
          (delete_object disk (bytes "automations") id w.automations)

  -- `GetAutomation` of the service.
  unfoldable pub view_of : AutomationRule → World → AutomationRuleView
  unfolding display_name_of
  view_of rule w = record {
    rule = rule;
    host_display_name = display_name_of (get_host disk rule.host_id w).1;
  }

  unfoldable pub views_of : List AutomationRule → World → List AutomationRuleView
  unfolding view_of
  views_of [] w = []
  views_of (rule ∷ rules) w = view_of rule w ∷ views_of rules w

  unfoldable pub get_automation_view : Text → M (Option AutomationRuleView)
  unfolding view_of
  get_automation_view id = do
    found ← get_automation disk (trim_space id)
    λ w. return (elim found [ none ↦ none | some rule ↦ some (view_of rule w) ]) w

  -- `ListAutomations` of the service.
  unfoldable pub list_automations : M (List AutomationRuleView)
  unfolding views_of sort_by_updated
  list_automations = do
    rules ← (λ w. lift (list_objects disk (bytes "automations") w.automations) w)
    λ w. return (sort_by_updated (views_of rules w)) w

  -- The rule and its host, at the start of `SampleAutomation` and `TestAutomation`.
  unfoldable pub rule_and_host : Text → M (AutomationRule × Host)
  rule_and_host id = do
    found ← get_automation disk (trim_space id)
    rule ← found_or (automation_not_found id) found
    found_host ← get_host disk rule.host_id
    host ← found_or (host_not_found rule.host_id) found_host
    return (rule, host)

module _ (clock : ℕ → ℕ) (disk : Disk) (b : Builder)
    (select_knowledge : Text → ℤ → World → Result Text (List KnowledgeItem)) (s : Sampler) where
  unfoldable pub sampled : AutomationRule → Float64 × Option Text → M AutomationSample
  sampled rule (value, some why) = fail (outside_error why)
  sampled rule (value, none) = do
    at ← now clock
    _ ← ignore (save_automation disk (record rule { last_observed_value = value; updated_at = at }))
    return (record { metric = rule.metric; value = value; captured_at = at })

  -- `SampleAutomation`.
  unfoldable pub sample_automation : Text → M AutomationSample
  unfolding rule_and_host sampled
  sample_automation id = do
    (rule, host) ← rule_and_host clock disk id
    sampled rule (sample_automation_metric s host rule.metric)

  -- The result of a test in which no run was created.
  unfoldable pub not_created :
      Text → Text → ℕ → AutomationRule → Float64 → Bool → Bool → M AutomationTestResult
  not_created status message at rule value matched blocked = do
    let marked = with_status status at rule
    _ ← ignore (save_automation disk marked)
    return (record {
      rule = marked;
      sample = record { metric = rule.metric; value = value; captured_at = at };
      threshold_matched = matched;
      cooldown_blocked = blocked;
      run_created = false;
      run = none;
      message = message;
    })

  -- What follows `createAutomationRun` of a test.
  unfoldable pub after_test_create :
      ℕ
      → AutomationRule
      → Float64
      → Bool
      → Bool
      → World × Result GatewayError Run
      → World × Result GatewayError AutomationTestResult
  after_test_create at rule value matched blocked (w, err e) = (
    (ignore (save_automation disk (with_status (bytes "test_trigger_failed") at rule)) w).0,
    err e,
  )
  after_test_create at rule value matched blocked (w, ok run) =
      let triggered = with_trigger run at rule in
      (
        (ignore (save_automation disk triggered) w).0,
        ok (record {
          rule = triggered;
          sample = record { metric = rule.metric; value = value; captured_at = at };
          threshold_matched = matched;
          cooldown_blocked = blocked;
          run_created = true;
          run = some run;
          message = bytes "测试运行已创建，后续执行仍走真实 runtime / policy / approval 链路。";
        }),
      )

  -- What follows the sample of a test.
  unfoldable pub tested : Bool → ℕ → AutomationRule → Float64 × Option Text → M AutomationTestResult
  unfolding not_created after_test_create
  tested force at rule (value, some why) = (λ w. (
    (ignore (save_automation disk (with_status (bytes "sample_failed") at rule)) w).0,
    err (outside_error why),
  ))
  tested force at rule (value, none) =
      let matched = automation_threshold_matched s value rule.operator rule.threshold in
      let blocked = is_automation_cooldown_blocked rule at in
      let seen = record rule { last_observed_value = value } in
      if not matched && not force
      then not_created (bytes "test_threshold_not_matched")
          (bytes "当前采样未命中阈值；可使用强制测试运行验证完整 AI run 链路。") at seen value matched blocked
      else if blocked && not force
      then not_created (bytes "test_cooldown") (bytes "规则仍在冷却期；可使用强制测试运行跳过冷却验证。") at seen value
          matched blocked
      else (λ w. after_test_create at seen value matched blocked (
          create_automation_run clock disk b select_knowledge s seen value (bytes "automation_test")
            w))

  -- `TestAutomation`.
  unfoldable pub test_automation : Text → Bool → M AutomationTestResult
  unfolding rule_and_host tested
  test_automation id force = do
    (rule, host) ← rule_and_host clock disk id
    at ← now clock
    tested force at rule (sample_automation_metric s host rule.metric)
