-- ===== src/Models/Sessions.antt =====
-- The records of internal/models/types.go for hosts, sessions, turns, profiles and knowledge. A
-- `float64` is its 64 bits, and a `*time.Time` an option.
use ops_terminator.Base.{ℕ, Bool, true, false, List, [], Option}
use ops_terminator.Base.Text.{Text, bytes}
use ops_terminator.Models.{ToolCall, PolicyRule}

abbrev pub Float64 : Type 0
Float64 = ℕ

abbrev pub host_mode_local : Text
host_mode_local = bytes "local"

abbrev pub host_mode_ssh : Text
host_mode_ssh = bytes "ssh"

abbrev pub run_status_created : Text
run_status_created = bytes "created"

abbrev pub run_status_tool_running : Text
run_status_tool_running = bytes "tool_running"

abbrev pub run_status_completed : Text
run_status_completed = bytes "completed"

abbrev pub run_status_failed : Text
run_status_failed = bytes "failed"

-- `HostProfile`.
pub record HostProfile : Type 0 where
  pub hostname : Text
  pub kernel : Text
  pub distro : Text
  pub shell : Text
  pub user : Text
  pub home_dir : Text
  pub working_dir : Text
  pub path_preview : Text
  pub init_system : Text
  pub capabilities : List Text
  pub summary : Text
  pub raw : Text
  pub stale : Bool

-- `MemoryState`.
pub record MemoryState : Type 0 where
  pub rolling_summary : Text
  pub compressed_until_turn_id : Text
  pub older_user_ledger : List Text
  pub open_threads : List Text
  pub host_profile : HostProfile
  pub last_compacted_at : Option ℕ
  pub last_host_profile_at : Option ℕ
  pub profile_stale : Bool

-- `Session`; its `SessionMode` is the one flag that it holds.
pub record Session : Type 0 where
  pub id : Text
  pub host_id : Text
  pub title : Text
  pub summary : Text
  pub bypass_approvals : Bool
  pub memory : MemoryState
  pub turn_ids : List Text
  pub run_ids : List Text
  pub created_at : ℕ
  pub updated_at : ℕ
  pub last_input : Text
  pub last_outcome : Text

-- `ToolExecutionRecord`.
pub record ToolExecutionRecord : Type 0 where
  pub tool_name : Text
  pub tool_call_id : Text
  pub approval_id : Text
  pub command_preview : Text
  pub raw_result : Text
  pub model_result : Text
  pub policy_override : Bool
  pub truncated : Bool
  pub raw_chars : ℕ
  pub model_chars : ℕ
  pub omitted_chars : ℕ

-- `PromptStats`.
pub record PromptStats : Type 0 where
  pub estimated_prompt_tokens_before_compression : ℕ
  pub estimated_prompt_tokens : ℕ
  pub compression_triggered : Bool
  pub compressed_turn_count : ℕ
  pub recent_full_turn_count : ℕ
  pub message_count : ℕ

-- `ChatMessage`.
pub record ChatMessage : Type 0 where
  pub role : Text
  pub content : Text
  pub tool_calls : List ToolCall
  pub tool_call_id : Text

-- `KnowledgeItem`.
pub record KnowledgeItem : Type 0 where
  pub id : Text
  pub kind : Text
  pub status : Text
  pub scope : Text
  pub title : Text
  pub body : Text
  pub source_run_id : Text
  pub source_turn_id : Text
  pub source_event_id : Text
  pub source_sop_id : Text
  pub confidence : Float64
  pub embedding : List Float64
  pub embedding_model : Text
  pub embedding_status : Text
  pub embedding_error : Text
  pub tags : List Text
  pub created_at : ℕ
  pub updated_at : ℕ
  pub approved_at : Option ℕ
  pub approved_by : Text

-- `OperatorProfile`.
pub record OperatorProfile : Type 0 where
  pub id : Text
  pub approval_strictness : Text
  pub allow_bypass_approvals : Bool
  pub allow_force_approve : Bool
  pub allow_plaintext_ssh_warning : Bool
  pub allow_automation_bypass : Bool
  pub prefer_read_only_first : Bool
  pub remote_validation_required : Bool
  pub notes : List Text
  pub updated_at : ℕ

-- `DefaultOperatorProfile`.
abbrev pub default_operator_profile : OperatorProfile
default_operator_profile = record {
  id = bytes "default";
  approval_strictness = bytes "standard";
  allow_bypass_approvals = false;
  allow_force_approve = true;
  allow_plaintext_ssh_warning = true;
  allow_automation_bypass = false;
  prefer_read_only_first = true;
  remote_validation_required = true;
  notes = [];
  updated_at = 0;
}

-- `SkillSummary`.
pub record SkillSummary : Type 0 where
  pub id : Text
  pub title : Text
  pub description : Text
  pub risk_category : Text
  pub examples : List Text
  pub flow : List Text
  pub decision_hints : List Text
  pub safer_alternatives : List Text

-- `ToolSummary`.
pub record ToolSummary : Type 0 where
  pub name : Text
  pub description : Text
  pub read_only : Bool

-- `ContextSnapshot`.
pub record ContextSnapshot : Type 0 where
  pub host_id : Text
  pub host_display_name : Text
  pub host_mode : Text
  pub session_summary : Text
  pub host_profile_summary : Text
  pub rolling_summary : Text
  pub older_user_ledger : List Text
  pub open_threads : List Text
  pub operator_profile : OperatorProfile
  pub policy_summary : Text
  pub skill_summaries : List SkillSummary
  pub knowledge_matches : List KnowledgeItem
  pub builtin_summaries : List ToolSummary

-- `Turn`.
pub record Turn : Type 0 where
  pub id : Text
  pub session_id : Text
  pub host_id : Text
  pub user_input : Text
  pub context_snapshot : ContextSnapshot
  pub final_explanation : Text
  pub messages : List ChatMessage
  pub tool_results : List ToolExecutionRecord
  pub prompt_stats : PromptStats
  pub run_id : Text
  pub created_at : ℕ
  pub updated_at : ℕ

-- `ExecutionResult`.
pub record ExecutionResult : Type 0 where
  pub final_response : Text
  pub tool_history : List Text
  pub policy_history : List PolicyRule
  pub messages : List ChatMessage
  pub tool_results : List ToolExecutionRecord
  pub prompt_stats : PromptStats
  pub memory : MemoryState
