-- ===== src/Gateway/Zero.antt =====
-- The zero values of records, as Go leaves them, and the record of a new session.
use ops_terminator.Base.{ℕ, Bool, false, [], Option, none, some, text_eq, nat_eq}
use ops_terminator.Base.Int.{pos}
use ops_terminator.Base.Text.{Text}
use ops_terminator.Models.Hosts.{Host}
use ops_terminator.Models.Sessions.{
  HostProfile, MemoryState, Session, Turn, PromptStats, OperatorProfile, ContextSnapshot,
}

-- The zero values of the records.
abbrev pub no_host_profile : HostProfile
no_host_profile = record {
  hostname = [];
  kernel = [];
  distro = [];
  shell = [];
  user = [];
  home_dir = [];
  working_dir = [];
  path_preview = [];
  init_system = [];
  capabilities = [];
  summary = [];
  raw = [];
  stale = false;
}

abbrev pub no_memory : MemoryState
no_memory = record {
  rolling_summary = [];
  compressed_until_turn_id = [];
  older_user_ledger = [];
  open_threads = [];
  host_profile = no_host_profile;
  last_compacted_at = none;
  last_host_profile_at = none;
  profile_stale = false;
}

abbrev pub no_stats : PromptStats
no_stats = record {
  estimated_prompt_tokens_before_compression = 0;
  estimated_prompt_tokens = 0;
  compression_triggered = false;
  compressed_turn_count = 0;
  recent_full_turn_count = 0;
  message_count = 0;
}

abbrev pub no_operator_profile : OperatorProfile
no_operator_profile = record {
  id = [];
  approval_strictness = [];
  allow_bypass_approvals = false;
  allow_force_approve = false;
  allow_plaintext_ssh_warning = false;
  allow_automation_bypass = false;
  prefer_read_only_first = false;
  remote_validation_required = false;
  notes = [];
  updated_at = 0;
}

abbrev pub no_snapshot : ContextSnapshot
no_snapshot = record {
  host_id = [];
  host_display_name = [];
  host_mode = [];
  session_summary = [];
  host_profile_summary = [];
  rolling_summary = [];
  older_user_ledger = [];
  open_threads = [];
  operator_profile = no_operator_profile;
  policy_summary = [];
  skill_summaries = [];
  knowledge_matches = [];
  builtin_summaries = [];
}

abbrev pub new_session : Text → Text → Text → Bool → ℕ → Session
new_session id host_id title bypass at = record {
  id = id;
  host_id = host_id;
  title = title;
  summary = [];
  bypass_approvals = bypass;
  memory = no_memory;
  turn_ids = [];
  run_ids = [];
  created_at = at;
  updated_at = at;
  last_input = [];
  last_outcome = [];
}

-- The zero values that stand for records which are missing.
abbrev pub or_zero {ℓ} : {A : Type ℓ} → A → Option A → A
or_zero zero none = zero
or_zero zero (some a) = a

abbrev pub no_turn : Turn
no_turn = record {
  id = [];
  session_id = [];
  host_id = [];
  user_input = [];
  context_snapshot = no_snapshot;
  final_explanation = [];
  messages = [];
  tool_results = [];
  prompt_stats = no_stats;
  run_id = [];
  created_at = 0;
  updated_at = 0;
}

abbrev pub no_session : Session
no_session = new_session [] [] [] false 0

abbrev pub no_host : Host
no_host = record {
  id = [];
  display_name = [];
  mode = [];
  address = [];
  port = pos 0;
  user = [];
  password_env = [];
  tags = [];
  labels = [];
  created_at = 0;
  updated_at = 0;
}
