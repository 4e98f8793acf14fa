-- ===== src/Examples/AgentRuns.antt =====
-- Runs of internal/agent/runtime.go and internal/agent/memory.go.
use ops_terminator.Base.{
  ℕ, true, false, List, [], ◌∷◌, ◌++◌, none, Result, ok, ◌≡◌, inr, refl, arith, leb, if◌then◌else◌,
  ◌<◌, ◌≢◌, All,
}
use ops_terminator.Base.Text.{Text, bytes, length, trim_space, is_space}
use ops_terminator.Models.{Approval, ToolCall, ActionPreview, policy_decision_deny}
use ops_terminator.Policy.Engine.{check}
use ops_terminator.Policy.Engine.Enforced.{created, check-IsDenied}
use ops_terminator.Policy.Assess.{assess_shell_command}
use ops_terminator.Agent.Truncate.{truncate_middle}
use ops_terminator.Agent.Truncate.Length.{length-truncate_middle}
use ops_terminator.Agent.Memory.{Turn, select_recent_turns, select_turns_to_compact}
use ops_terminator.Agent.Memory.Partition.{select_turns_to_compact-select_recent_turns}
use ops_terminator.Agent.Plan.{plan_calls, decide_plans}
use ops_terminator.Agent.Plan.SharedId.{executed, decide_plans-shared_id}
use ops_terminator.Agent.Plan.Permitted.{IsPermitted, decide_plans-IsPermitted}
use ops_terminator.Examples.{run_check, default_engine}

abbrev long_text : Text
long_text = bytes " a text that is longer than forty-nine bytes, so that its middle is left out "

long_text_is_text : length (trim_space long_text) < 9223372036854775808
unfolding bytes trim_space is_space
long_text_is_text = omega arith

length-truncate_middle_example :
    length (truncate_middle long_text 49)
    ≡ (if leb (length (trim_space long_text)) 49 then length (trim_space long_text) else 49)
length-truncate_middle_example =
    length-truncate_middle long_text 49 (omega arith) (inr (omega arith)) long_text_is_text

abbrev turn : Text → Turn ℕ
turn id = record { id = id; content = 0 }

abbrev turns : List (Turn ℕ)
turns =
    turn (bytes "t0")
    ∷ turn (bytes "t1")
    ∷ turn (bytes "t2")
    ∷ turn (bytes "t3")
    ∷ turn (bytes "t4")
    ∷ []

-- The first of the turns is the one up to which they were compacted.
abbrev later_turns : List (Turn ℕ)
later_turns = turn (bytes "t2") ∷ turn (bytes "t3") ∷ turn (bytes "t4") ∷ []

t1_is_set : bytes "t1" ≢ []
unfolding bytes
t1_is_set e = cc

t0_is_another : bytes "t0" ≢ bytes "t1"
unfolding bytes
t0_is_another e = ground arith

select_turns_to_compact-select_recent_turns_example :
    (select_turns_to_compact turns (bytes "t1") 2 ++ select_recent_turns turns 2 ≡ later_turns)
    × (select_turns_to_compact turns [] 2 ++ select_recent_turns turns 2 ≡ turns)
select_turns_to_compact-select_recent_turns_example =
    select_turns_to_compact-select_recent_turns (turn (bytes "t0") ∷ []) later_turns
      (turn (bytes "t1")) 2 t1_is_set (t0_is_another, tt) (omega arith) (omega arith)

-- Two calls with one id: the first asks, the second is denied.
abbrev call : Text → ToolCall
call arguments = record {
  id = bytes "c1";
  type_name = bytes "function";
  function_name = bytes "run_shell";
  arguments = arguments;
}

abbrev preview_shell : ToolCall → Result Text ActionPreview
preview_shell c = ok (record {
  tool_name = bytes "run_shell";
  read_only = false;
  command_preview = c.arguments;
  risk_hint = [];
})

abbrev calls : List ToolCall
calls = call (bytes "systemctl restart nginx") ∷ call (bytes "rm -rf /var") ∷ []

-- The approval of the call that asks.
abbrev approval : Approval
approval = record {
  id = bytes "a1";
  run_id = bytes "run_1";
  batch_id = bytes "batch_1";
  tool_call_id = bytes "c1";
  batch_index = 1;
  tool_name = bytes "run_shell";
  rule_id = bytes "mutating_shell_ask";
  rule_severity = [];
  rule_category = [];
  reason = [];
  scope = [];
  safer_alternative = [];
  requested_by = bytes "agent";
  policy_decision = bytes "ask";
  decision = bytes "approve";
  decision_source = [];
  resolved_by = [];
  created_at = 0;
  resolved_at = none;
}

decide_plans-IsPermitted_example :
    All
      (IsPermitted preview_shell default_engine false (approval ∷ []))
      (decide_plans (approval ∷ []) (plan_calls preview_shell default_engine false calls).0)
decide_plans-IsPermitted_example =
    decide_plans-IsPermitted preview_shell default_engine false (approval ∷ []) calls

-- The second call asks; it has the id of a call that is denied, whose approval is rejected.
abbrev rejection : Approval
rejection = record approval {
  id = bytes "a0";
  batch_index = 0;
  rule_id = bytes "destructive_command_deny";
  policy_decision = bytes "deny";
  decision = bytes "reject";
}

abbrev preview_of : Text → ActionPreview
preview_of arguments = record {
  tool_name = bytes "run_shell";
  read_only = false;
  command_preview = arguments;
  risk_hint = [];
}

rm_assessed :
    (assess_shell_command (trim_space (bytes "rm -rf /var"))).decision ≡ policy_decision_deny
unfolding run_check
rm_assessed = refl

rm_is_denied : (check default_engine (preview_of (bytes "rm -rf /var"))).decision ≡ bytes "deny"
rm_is_denied =
    (check-IsDenied default_engine (preview_of (bytes "rm -rf /var")) (created 1 []) refl
      (inr rm_assessed)).0

decide_plans-shared_id_example :
    (executed preview_shell default_engine false (rejection ∷ []) (call (bytes "rm -rf /var") ∷ [])
      ≡ false ∷ [])
    × (executed preview_shell default_engine false
          (rejection ∷ approval ∷ [])
          (call (bytes "rm -rf /var") ∷ call (bytes "systemctl restart nginx") ∷ [])
        ≡ true ∷ true ∷ [])
decide_plans-shared_id_example =
    decide_plans-shared_id preview_shell default_engine false (call (bytes "rm -rf /var"))
      (call (bytes "systemctl restart nginx")) (preview_of (bytes "rm -rf /var")) rejection approval
      refl rm_is_denied refl refl refl refl refl
