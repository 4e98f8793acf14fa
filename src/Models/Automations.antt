-- ===== src/Models/Automations.antt =====
-- The automations of internal/models/types.go.
use ops_terminator.Base.{ℕ, Bool, Option}
use ops_terminator.Base.Int.{ℤ}
use ops_terminator.Base.Text.{Text, bytes}
use ops_terminator.Models.{Run}
use ops_terminator.Models.Sessions.{Float64}

abbrev pub trigger_type_threshold : Text
trigger_type_threshold = bytes "threshold"

-- `AutomationRule`.
pub record AutomationRule : Type 0 where
  pub id : Text
  pub name : Text
  pub enabled : Bool
  pub host_id : Text
  pub trigger_type : Text
  pub metric : Text
  pub operator : Text
  pub threshold : Float64
  pub window_minutes : ℤ
  pub cooldown_minutes : ℤ
  pub prompt_template : Text
  pub session_strategy : Text
  pub bypass_approvals : Bool
  pub allow_force_approve : Bool
  pub session_id : Text
  pub last_triggered_at : Option ℕ
  pub last_run_id : Text
  pub last_status : Text
  pub last_observed_value : Float64
  pub created_at : ℕ
  pub updated_at : ℕ

-- `AutomationRuleView`: the rule and the host's name.
pub record AutomationRuleView : Type 0 where
  pub rule : AutomationRule
  pub host_display_name : Text

-- `AutomationSample`.
pub record AutomationSample : Type 0 where
  pub metric : Text
  pub value : Float64
  pub captured_at : ℕ

-- `AutomationTestResult`.
pub record AutomationTestResult : Type 0 where
  pub rule : AutomationRule
  pub sample : AutomationSample
  pub threshold_matched : Bool
  pub cooldown_blocked : Bool
  pub run_created : Bool
  pub run : Option Run
  pub message : Text
