-- ===== src/Gateway/Context.antt =====
-- `Builder` of internal/context/builder.go. The skills, the summaries and the probe of a host are
-- parameters.
use ops_terminator.Base.{
  ℕ, Bool, true, false, not, ◌&&◌, List, [], Option, none, some, Result, ok, err, ◌==◌, text_eq,
  if◌then◌else◌,
}
use ops_terminator.Base.Text.{Text, trim_space}
use ops_terminator.Base.Int.{minutes, before_after}
use ops_terminator.Models.Hosts.{Host}
use ops_terminator.Models.Sessions.{
  HostProfile, MemoryState, Session, OperatorProfile, KnowledgeItem, SkillSummary, ToolSummary,
  ContextSnapshot,
}
use ops_terminator.Agent.Settings.{RuntimeSettings}

-- What the builder calls.
pub record Builder : Type 0 where
  pub select_skills : Text → ℕ → List SkillSummary
  pub tool_summaries : List ToolSummary
  pub policy_summary : Text
  pub probe_host_profile : Host → Result Text HostProfile

-- `Build`.
unfoldable pub build :
    Builder → Host → Session → Text → OperatorProfile → List KnowledgeItem → ContextSnapshot
build b host session user_input operator knowledge = record {
  host_id = host.id;
  host_display_name = host.display_name;
  host_mode = host.mode;
  session_summary = session.summary;
  host_profile_summary = session.memory.host_profile.summary;
  rolling_summary = session.memory.rolling_summary;
  older_user_ledger = session.memory.older_user_ledger;
  open_threads = session.memory.open_threads;
  operator_profile = operator;
  policy_summary = b.policy_summary;
  skill_summaries = b.select_skills user_input 4;
  knowledge_matches = knowledge;
  builtin_summaries = b.tool_summaries;
}

-- The memory with its profile marked.
abbrev mark_stale : Bool → MemoryState → MemoryState
mark_stale stale memory = record memory {
  profile_stale = stale;
  host_profile = record memory.host_profile { stale = stale };
}

-- Whether the profile that is there has not expired.
unfoldable pub is_current : ℕ → RuntimeSettings → MemoryState → Option ℕ → Bool
is_current now settings memory none = false
is_current now settings memory (some last) =
    not (trim_space memory.host_profile.summary == [])
    && before_after now last (minutes settings.host_profile_ttl_minutes)

-- What follows the probe of `EnsureHostProfile`.
unfoldable pub after_probe : ℕ → MemoryState → Result Text HostProfile → Result Text MemoryState
after_probe now memory (ok profile) = ok (record memory {
  host_profile = profile;
  last_host_profile_at = some now;
  profile_stale = false;
})
after_probe now memory (err why) =
    if trim_space memory.host_profile.summary == [] then err why else ok (mark_stale true memory)

-- `EnsureHostProfile`, at a reading of the clock.
unfoldable pub ensure_host_profile :
    Builder → ℕ → Host → MemoryState → RuntimeSettings → Result Text MemoryState
unfolding is_current after_probe
ensure_host_profile b now host memory settings =
    if is_current now settings memory memory.last_host_profile_at
    then ok (mark_stale false memory)
    else after_probe now memory (b.probe_host_profile host)
