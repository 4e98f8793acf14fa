-- ===== src/Gateway/Automation.antt =====
-- `runAutomationCycle` and `createAutomationRun` of internal/gateway/automation.go.
pub mod Trigger
use ops_terminator.Base.{ℕ, not, List, [], ◌∷◌, Option, none, some, Result, ok, err, if◌then◌else◌}
use ops_terminator.Base.Int.{ℤ}
use ops_terminator.Base.Text.{Text, bytes}
use ops_terminator.Models.{Run}
use ops_terminator.Models.Hosts.{Host}
use ops_terminator.Models.Sessions.{Float64, KnowledgeItem}
use ops_terminator.Models.Automations.{AutomationRule}
use ops_terminator.Store.{Disk, list_objects}
use ops_terminator.Gateway.Context.{Builder}
use ops_terminator.Gateway.Metrics.{
  Sampler, sample_automation_metric, automation_threshold_matched, is_automation_cooldown_blocked,
  build_automation_prompt,
}
use ops_terminator.Gateway.Service.{
  ◌>>=◌, World, GatewayError, M, return, ignore, lift, now, get_host, save_automation,
}
use ops_terminator.Gateway.Runs.{create_run}

-- A rule with its status.
abbrev pub with_status : Text → ℕ → AutomationRule → AutomationRule
with_status status at rule = record rule { last_status = status; updated_at = at }

-- A rule that has started a run.
abbrev pub with_trigger : Run → ℕ → AutomationRule → AutomationRule
with_trigger run at rule = record rule {
  last_triggered_at = some at;
  last_run_id = run.id;
  last_status = run.status;
  session_id = run.session_id;
  updated_at = at;
}

module _ (clock : ℕ → ℕ) (disk : Disk) (b : Builder)
    (select_knowledge : Text → ℤ → World → Result Text (List KnowledgeItem)) (s : Sampler) where
  -- `createAutomationRun`.
  unfoldable pub create_automation_run : AutomationRule → Float64 → Text → M Run
  create_automation_run rule value requested_by = create_run clock disk b select_knowledge (record {
    host_id = rule.host_id;
    session_id = rule.session_id;
    user_input = build_automation_prompt s rule value requested_by;
    requested_by = requested_by;
    bypass_approvals = some rule.bypass_approvals;
  })

  -- What follows `createAutomationRun`.
  unfoldable pub after_create :
      ℕ → AutomationRule → World × Result GatewayError Run → World × Result GatewayError (Unit {0})
  after_create at rule (w, err e) =
      ignore (save_automation disk (with_status (bytes "trigger_failed") at rule)) w
  after_create at rule (w, ok run) = ignore (save_automation disk (with_trigger run at rule)) w

  -- What follows the sample.
  unfoldable pub after_sample : ℕ → AutomationRule → Float64 × Option Text → M (Unit {0})
  unfolding create_automation_run after_create
  after_sample at rule (value, some why) = ignore (
      save_automation disk
        (with_status (bytes "sample_failed") at (record rule { last_observed_value = value })))
  after_sample at rule (value, none) =
      let seen = record rule { last_observed_value = value } in
      if not (automation_threshold_matched s value rule.operator rule.threshold)
      then ignore (save_automation disk (with_status (bytes "healthy") at seen))
      else if is_automation_cooldown_blocked rule at
      then ignore (save_automation disk (with_status (bytes "cooldown") at seen))
      else (λ w. after_create at seen (create_automation_run seen value (bytes "automation") w))

  -- What follows `GetHost`: an error is no error of the cycle.
  unfoldable pub after_host :
      ℕ
      → AutomationRule
      → World × Result GatewayError (Option Host)
      → World × Result GatewayError (Unit {0})
  unfolding after_sample
  after_host at rule (w, err e) = (w, ok tt)
  after_host at rule (w, ok none) = (w, ok tt)
  after_host at rule (w, ok (some host)) =
      after_sample at rule (sample_automation_metric s host rule.metric) w

  -- One round of the loop.
  unfoldable pub run_rule : ℕ → AutomationRule → M (Unit {0})
  unfolding after_host
  run_rule at rule w =
      if rule.enabled then after_host at rule (get_host disk rule.host_id w) else (w, ok tt)

  unfoldable pub run_rules : ℕ → List AutomationRule → M (Unit {0})
  unfolding run_rule
  run_rules at [] = return tt
  run_rules at (rule ∷ rules) = do _ ← run_rule at rule; run_rules at rules

  -- `runAutomationCycle`.
  unfoldable pub run_automation_cycle : M (Unit {0})
  unfolding run_rules
  run_automation_cycle = do
    rules ← (λ w. lift (list_objects disk (bytes "automations") w.automations) w)
    at ← now clock
    run_rules at rules
