-- ===== src/Agent/Settings.antt =====
-- `normalizeRuntimeSettings` of internal/agent/memory.go, and the settings of
-- internal/models/types.go. An `int` of the settings may be negative.
pub mod Usable
use ops_terminator.Base.Int.{ℤ, pos, is_positive, is_not_negative}
use ops_terminator.Base.{ℕ, zero, suc, Bool, true, false, if◌then◌else◌}

-- `RuntimeSettings`.
pub record RuntimeSettings : Type 0 where
  pub max_agent_steps : ℤ
  pub bypass_approvals : Bool
  pub context_soft_limit_tokens : ℤ
  pub compression_trigger_tokens : ℤ
  pub response_reserve_tokens : ℤ
  pub recent_full_turns : ℤ
  pub older_user_ledger_entries : ℤ
  pub host_profile_ttl_minutes : ℤ
  pub tool_result_max_chars : ℤ
  pub tool_result_head_chars : ℤ
  pub tool_result_tail_chars : ℤ
  pub sop_retrieval_limit : ℤ

-- `DefaultRuntimeSettings`.
abbrev pub default_runtime_settings : RuntimeSettings
default_runtime_settings = record {
  max_agent_steps = pos 20;
  bypass_approvals = false;
  context_soft_limit_tokens = pos 20000;
  compression_trigger_tokens = pos 16000;
  response_reserve_tokens = pos 4000;
  recent_full_turns = pos 2;
  older_user_ledger_entries = pos 6;
  host_profile_ttl_minutes = pos 30;
  tool_result_max_chars = pos 6000;
  tool_result_head_chars = pos 4000;
  tool_result_tail_chars = pos 1200;
  sop_retrieval_limit = pos 3;
}

-- `if n <= 0 { n = d }`.
unfoldable pub positive_or : ℤ → ℤ → ℤ
positive_or n d = if is_positive n then n else d

-- `if n < 0 { n = d }`.
unfoldable pub not_negative_or : ℤ → ℤ → ℤ
not_negative_or n d = if is_not_negative n then n else d

-- `normalizeRuntimeSettings`.
unfoldable pub normalize_runtime_settings : RuntimeSettings → RuntimeSettings
normalize_runtime_settings s =
    let defaults = default_runtime_settings in
    record s {
      max_agent_steps = positive_or s.max_agent_steps defaults.max_agent_steps;
      context_soft_limit_tokens =
          positive_or s.context_soft_limit_tokens defaults.context_soft_limit_tokens;
      compression_trigger_tokens =
          positive_or s.compression_trigger_tokens defaults.compression_trigger_tokens;
      response_reserve_tokens =
          positive_or s.response_reserve_tokens defaults.response_reserve_tokens;
      recent_full_turns = positive_or s.recent_full_turns defaults.recent_full_turns;
      older_user_ledger_entries =
          positive_or s.older_user_ledger_entries defaults.older_user_ledger_entries;
      host_profile_ttl_minutes =
          positive_or s.host_profile_ttl_minutes defaults.host_profile_ttl_minutes;
      tool_result_max_chars = positive_or s.tool_result_max_chars defaults.tool_result_max_chars;
      tool_result_head_chars = positive_or s.tool_result_head_chars defaults.tool_result_head_chars;
      tool_result_tail_chars =
          not_negative_or s.tool_result_tail_chars defaults.tool_result_tail_chars;
      sop_retrieval_limit = positive_or s.sop_retrieval_limit defaults.sop_retrieval_limit;
    }
