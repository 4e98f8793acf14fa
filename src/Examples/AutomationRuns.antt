-- ===== src/Examples/AutomationRuns.antt =====
-- Runs of internal/gateway/automation.go and of the handlers of automations.
use ops_terminator.Base.{true, false, [], none, some, Result, ok, ◌≡◌, ◌⊎◌, refl, ltb, leb}
use ops_terminator.Base.Int.{pos, minutes, to_int64, before_after}
use ops_terminator.Base.Text.{Text, bytes, one_of, first_non_empty}
use ops_terminator.Models.{Run, new_id}
use ops_terminator.Models.Automations.{AutomationRule, trigger_type_threshold}
use ops_terminator.Store.{lookup}
use ops_terminator.Gateway.Metrics.{
  Sampler, automation_metric_command, is_supported_automation_operator, is_blocked_since,
  is_automation_cooldown_blocked, automation_threshold_matched, parse_metric_value, read_metric,
  run_metric, sample_automation_metric,
}
use ops_terminator.Gateway.Service.{World, GatewayError, get_automation, save_automation}
use ops_terminator.Gateway.Service.Frame.{SameTables}
use ops_terminator.Gateway.Runs.{new_run}
use ops_terminator.Gateway.Automation.{create_automation_run, run_rule}
use ops_terminator.Gateway.Automation.Trigger.{IsDue, run_rule-IsDue}
use ops_terminator.Gateway.Rules.{
  trim_rule, with_id, check_rule, fill_rule, keep_history, save_trimmed, save_automation_rule,
}
use ops_terminator.Gateway.Rules.Valid.{IsUsableRule, save_automation_rule-IsUsableRule}
use ops_terminator.Examples.GatewayRuns.{healthy, clock, world, builder, select_nothing, run_create}

-- A disk that is 91 full, on a host where floating-point numbers are compared by their bits.
abbrev sampler : Sampler
sampler = record {
  run_command = λ host command. ok (bytes "91\n", []);
  parse_float = λ t. (91, none);
  is_less = ltb;
  is_at_most = leb;
  two_decimals = λ f. [];
}

abbrev rule : AutomationRule
rule = record {
  id = bytes "r";
  name = bytes "disk";
  enabled = true;
  host_id = bytes "h";
  trigger_type = trigger_type_threshold;
  metric = bytes "disk_usage";
  operator = bytes ">";
  threshold = 90;
  window_minutes = pos 5;
  cooldown_minutes = pos 15;
  prompt_template = bytes "look";
  session_strategy = bytes "reuse";
  bypass_approvals = true;
  allow_force_approve = false;
  session_id = [];
  last_triggered_at = none;
  last_run_id = [];
  last_status = [];
  last_observed_value = 0;
  created_at = 1;
  updated_at = 1;
}

unfoldable run_metrics : Text
unfolding run_create automation_metric_command is_supported_automation_operator is_blocked_since
    is_automation_cooldown_blocked automation_threshold_matched parse_metric_value read_metric
    run_metric sample_automation_metric create_automation_run first_non_empty one_of
run_metrics = []

due : IsDue sampler 100 rule world
unfolding run_metrics
due = record {
  enabled = refl;
  host = _;
  found = refl;
  value = 91;
  sampled = refl;
  matched = refl;
  elapsed = refl;
}

run_rule-IsDue_example :
    SameTables world (run_rule clock healthy builder select_nothing sampler 100 rule world).0
    ⊎ IsDue sampler 100 rule world
run_rule-IsDue_example = run_rule-IsDue clock healthy builder select_nothing sampler 100 rule world

abbrev asked : World × Result GatewayError Run
asked =
    create_automation_run clock healthy builder select_nothing sampler
      (record rule { last_observed_value = 91 }) 91 (bytes "automation") world

abbrev run : Run
run =
    new_run (new_id (bytes "run") 6) (new_id (bytes "session") 2) (new_id (bytes "turn") 5)
      (bytes "h") (bytes "automation") true 4

-- A cooldown of 153722868 minutes wraps around and blocks nothing.
wrapped :
    is_automation_cooldown_blocked
      (record rule { last_triggered_at = some 100; cooldown_minutes = pos 153722868 })
      200
    ≡ false
unfolding is_automation_cooldown_blocked is_blocked_since minutes to_int64 before_after
wrapped = refl

-- A rule as it is sent, without an id and with blanks.
abbrev given : AutomationRule
given = record rule { id = []; name = bytes " disk "; cooldown_minutes = pos 0 }

abbrev kept : AutomationRule
kept = record rule {
  id = new_id (bytes "automation") 1;
  cooldown_minutes = pos 15;
  created_at = 2;
  updated_at = 2;
}

abbrev saved : World × Result GatewayError AutomationRule
saved = save_automation_rule clock healthy given world

saved_ok : saved ≡ (saved.0, ok kept)
unfolding run_metrics trim_rule with_id check_rule fill_rule keep_history save_trimmed
    save_automation_rule get_automation save_automation new_id
saved_ok = refl

save_automation_rule-IsUsableRule_example :
    IsUsableRule kept × (lookup kept.id saved.0.automations ≡ some kept)
save_automation_rule-IsUsableRule_example =
    save_automation_rule-IsUsableRule clock healthy given world saved_ok
