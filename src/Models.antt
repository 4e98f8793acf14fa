-- ===== src/Models.antt =====
-- The data types of internal/models/types.go that the modelled code uses. A `time.Time` is a number
-- of nanoseconds, the zero time being 0; `int` fields that are never negative are numbers.
pub mod Sessions
pub mod Hosts
pub mod Automations
use ops_terminator.Base.{ℕ, Bool, List, Option, ◌++◌, ◌≢◌, arith}
use ops_terminator.Base.Text.{Text, bytes}
use ops_terminator.Base.Text.Decimal.{decimal}

abbrev pub policy_decision_allow : Text
policy_decision_allow = bytes "allow"

abbrev pub policy_decision_ask : Text
policy_decision_ask = bytes "ask"

abbrev pub policy_decision_deny : Text
policy_decision_deny = bytes "deny"

abbrev pub approval_decision_approve : Text
approval_decision_approve = bytes "approve"

abbrev pub approval_decision_reject : Text
approval_decision_reject = bytes "reject"

abbrev pub approval_decision_force_approve : Text
approval_decision_force_approve = bytes "force_approve"

-- `ActionPreview`.
pub record ActionPreview : Type 0 where
  pub tool_name : Text
  pub read_only : Bool
  pub command_preview : Text
  pub risk_hint : Text

-- `PolicyRule`, the verdict on an action.
pub record PolicyRule : Type 0 where
  pub rule_id : Text
  pub category : Text
  pub severity : Text
  pub decision : Text
  pub reason : Text
  pub scope : Text
  pub safer_alternative : Text
  pub override_allowed : Bool

-- `PolicyRuleConfig`, what an operator may configure of a rule.
pub record PolicyRuleConfig : Type 0 where
  pub id : Text
  pub category : Text
  pub severity : Text
  pub decision : Text
  pub reason : Text
  pub safer_alternative : Text
  pub override_allowed : Bool
  pub description : Text
  pub updated_at : ℕ

-- The three decisions are different texts.
pub allow-ne-deny : policy_decision_allow ≢ policy_decision_deny
unfolding bytes
allow-ne-deny e = ground arith

pub ask-ne-deny : policy_decision_ask ≢ policy_decision_deny
unfolding bytes
ask-ne-deny e = ground arith

pub ask-ne-allow : policy_decision_ask ≢ policy_decision_allow
unfolding bytes
ask-ne-allow e = ground arith

-- `Approval`.
pub record Approval : Type 0 where
  pub id : Text
  pub run_id : Text
  pub batch_id : Text
  pub tool_call_id : Text
  pub batch_index : ℕ
  pub tool_name : Text
  pub rule_id : Text
  pub rule_severity : Text
  pub rule_category : Text
  pub reason : Text
  pub scope : Text
  pub safer_alternative : Text
  pub requested_by : Text
  pub policy_decision : Text
  pub decision : Text
  pub decision_source : Text
  pub resolved_by : Text
  pub created_at : ℕ
  pub resolved_at : Option ℕ

-- `Run`; its `SessionMode` is the one flag that it holds.
pub record Run : Type 0 where
  pub id : Text
  pub session_id : Text
  pub turn_id : Text
  pub host_id : Text
  pub status : Text
  pub requested_by : Text
  pub bypass_approvals : Bool
  pub pending_approval : Text
  pub pending_batch_id : Text
  pub pending_batch_total : ℕ
  pub pending_batch_resolved : ℕ
  pub tool_history : List Text
  pub policy_history : List PolicyRule
  pub final_response : Text
  pub failure_message : Text
  pub created_at : ℕ
  pub updated_at : ℕ
  pub completed_at : Option ℕ

-- A value in the payload of an event.
pub data PayloadValue : Type 0 where
  text : Text → PayloadValue
  texts : List Text → PayloadValue
  number : ℕ → PayloadValue
  flag : Bool → PayloadValue

-- `Event`; the payload as the list of its keys and values.
pub record Event : Type 0 where
  pub id : Text
  pub run_id : Text
  pub type_name : Text
  pub message : Text
  pub payload : List (Text × PayloadValue)
  pub timestamp : ℕ

-- `AuditEntry`; the payload as that of an event.
pub record AuditEntry : Type 0 where
  pub id : Text
  pub run_id : Text
  pub kind : Text
  pub summary : Text
  pub payload : List (Text × PayloadValue)
  pub created_at : ℕ

-- `ToolCall`, with the fields of its `ToolFunctionCall`.
pub record ToolCall : Type 0 where
  pub id : Text
  pub type_name : Text
  pub function_name : Text
  pub arguments : Text

abbrev pub run_status_running_agent : Text
run_status_running_agent = bytes "running_agent"

abbrev pub run_status_waiting_approval : Text
run_status_waiting_approval = bytes "waiting_approval"

abbrev pub decision_source_user : Text
decision_source_user = bytes "user"

-- `NewID`, of internal/models/id.go, at a reading of the clock.
unfoldable pub new_id : Text → ℕ → Text
new_id prefix nanos = prefix ++ (bytes "_" ++ decimal nanos)
