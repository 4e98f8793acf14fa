-- ===== src/Agent/Plan.antt =====
-- The planning of the tool calls of one response, in `Runtime.Execute` of internal/agent/runtime.go:
-- the policy check of each call, the decisions of `WaitBatch` put over the plans, and what then runs.
-- `preview` is `Registry.Preview`; the events of the loop are not modelled.
pub mod Permitted
pub mod SharedId
use ops_terminator.Base.{
  Bool, true, false, not, ◌&&◌, ◌||◌, List, [], ◌∷◌, ◌++◌, Option, none, some, Result, ok, err,
  ◌==◌, text_eq, if◌then◌else◌, or_else,
}
use ops_terminator.Base.Text.{Text, bytes, trim_space, first_non_empty}
use ops_terminator.Models.{
  ActionPreview, PolicyRule, Approval, ToolCall, policy_decision_allow, policy_decision_ask,
  policy_decision_deny, approval_decision_approve, approval_decision_force_approve,
}
use ops_terminator.Policy.Engine.{Engine, check}
use ops_terminator.Approval.State.{BatchRequest}
use ops_terminator.Agent.Truncate.{format_tool_history_entry}

-- `plannedToolCall`; `preview` and `rule` are there together, once the call has been previewed.
pub record Plan : Type 0 where
  pub call : ToolCall
  pub checked : Option (ActionPreview × PolicyRule)
  pub approval : Option Approval
  pub execute : Bool
  pub policy_override : Bool
  pub message : Text
  pub tool_history : Text

-- A plan, and the request for an approval if it needs one.
abbrev pub Planned : Type 0
Planned = Plan × Option BatchRequest

-- A plan as it is first made.
abbrev pub new_plan : ToolCall → Plan
new_plan call = record {
  call = call;
  checked = none;
  approval = none;
  execute = false;
  policy_override = false;
  message = [];
  tool_history = [];
}

-- The `switch` on the decision of a rule.
unfoldable pub plan_checked : Bool → ToolCall → ActionPreview → PolicyRule → Planned
plan_checked bypass call preview rule =
    let plan = record (new_plan call) { checked = some (preview, rule) } in
    if rule.decision == policy_decision_allow
    then (record plan { execute = true }, none)
    else if rule.decision == policy_decision_ask && bypass
    then (record plan { execute = true }, none)
    else (plan, some (record { tool_call = call; preview = preview; rule = rule }))

-- One round of the loop over the calls.
unfoldable pub plan_previewed : Engine → Bool → ToolCall → Result Text ActionPreview → Planned
unfolding plan_checked
plan_previewed engine bypass call (err why) = (
  record (new_plan call) {
    message = bytes "tool error: " ++ why;
    tool_history = call.function_name ++ bytes ": preview error";
  },
  none,
)
plan_previewed engine bypass call (ok preview) =
    plan_checked bypass call preview (check engine preview)

-- `append(requests, ...)` in front.
abbrev with_request : Option BatchRequest → List BatchRequest → List BatchRequest
with_request none requests = requests
with_request (some r) requests = r ∷ requests

module _ (preview : ToolCall → Result Text ActionPreview) (engine : Engine) (bypass : Bool) where
  -- The loop over the calls: the plans, and the requests for approval.
  unfoldable pub plan_calls : List ToolCall → List Plan × List BatchRequest
  unfolding plan_previewed
  plan_calls [] = ([], [])
  plan_calls (call ∷ calls) =
      let (plan, request) = plan_previewed engine bypass call (preview call) in
      let (plans, requests) = plan_calls calls in (plan ∷ plans, with_request request requests)

-- `approvalByToolCallID[id]`: the last of the approvals for the call.
unfoldable pub approval_for : Text → List Approval → Option Approval
approval_for id [] = none
approval_for id (a ∷ approvals) =
    or_else (approval_for id approvals) (if a.tool_call_id == id then some a else none)

-- `renderRejectedToolMessage`.
unfoldable pub render_rejected_tool_message : Approval → Text
render_rejected_tool_message a =
    let safer = first_non_empty (a.safer_alternative ∷ bytes "none" ∷ []) in
    trim_space (
      (if a.policy_decision == policy_decision_deny
        then bytes "tool blocked by policy and not force-approved: "
        else bytes "tool denied by approval: ")
      ++ (a.reason ++ (bytes "\nsafer_alternative: " ++ safer)))

-- `plan.preview.ToolName`, "" where there was no preview.
abbrev pub tool_name_of : Option (ActionPreview × PolicyRule) → Text
tool_name_of none = []
tool_name_of (some (preview, _)) = preview.tool_name

-- One round of the loop over the plans, on the approval that was found for the call.
unfoldable pub decide_found : Option Approval → Plan → Plan
decide_found none plan = plan
decide_found (some a) plan =
    if a.decision == approval_decision_approve || a.decision == approval_decision_force_approve
    then record plan {
      approval = some a;
      execute = true;
      policy_override = a.decision == approval_decision_force_approve;
    }
    else record plan {
      approval = some a;
      message = render_rejected_tool_message a;
      tool_history =
          format_tool_history_entry (tool_name_of plan.checked) (render_rejected_tool_message a);
    }

unfoldable pub decide_plan : List Approval → Plan → Plan
unfolding decide_found
decide_plan approvals plan = decide_found (approval_for plan.call.id approvals) plan

-- The loop over the plans.
unfoldable pub decide_plans : List Approval → List Plan → List Plan
unfolding decide_plan
decide_plans approvals [] = []
decide_plans approvals (plan ∷ plans) = decide_plan approvals plan ∷ decide_plans approvals plans

-- What the last loop does with a plan.
pub data Action : Type 0 where
  run : ToolCall → Action
  answer : Text → Action
  pass : Action

unfoldable pub action_of : Plan → Action
action_of plan =
    if not plan.execute
    then (if trim_space plan.message == [] then pass else answer plan.message)
    else run plan.call
