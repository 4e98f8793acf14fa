-- ===== src/Gateway/Runs.antt =====
-- The runs of internal/gateway/service.go: `CreateRun` and what it calls, and `processRun`, cut where
-- `Execute` runs, beside which other handlers run.
pub mod Bypass
pub mod Refused
use ops_terminator.Base.{
  ℕ, Bool, true, false, not, ◌&&◌, List, [], ◌∷◌, ◌++◌, Option, none, some, Result, ok, err, ◌==◌,
  text_eq, nat_eq, if◌then◌else◌,
}
use ops_terminator.Base.Int.{ℤ}
use ops_terminator.Base.Text.{Text, bytes, trim_space}
use ops_terminator.Models.{Run, text}
use ops_terminator.Models.Hosts.{Host}
use ops_terminator.Models.Sessions.{
  Session, Turn, OperatorProfile, default_operator_profile, KnowledgeItem, ContextSnapshot,
  run_status_created,
}
use ops_terminator.Store.{Disk}
use ops_terminator.Agent.Settings.{RuntimeSettings, normalize_runtime_settings}
use ops_terminator.Gateway.Context.{Builder, build, ensure_host_profile}
use ops_terminator.Gateway.Service.{
  World, host_not_found, bypass_not_allowed, session_belongs, outside_error, M, ◌>>=◌, return, fail,
  found_or, now, fresh_id, get_host, get_session, save_session, save_turn, save_run,
  get_operator_profile, save_operator_profile, announce,
}
use ops_terminator.Gateway.Zero.{no_stats, new_session}

-- `RunRequest`.
pub record RunRequest : Type 0 where
  pub host_id : Text
  pub session_id : Text
  pub user_input : Text
  pub requested_by : Text
  pub bypass_approvals : Option Bool

-- `ConversationContext`, with the run and the host that `Execute` is given beside it.
pub record ExecutionInput : Type 0 where
  pub run : Run
  pub host : Host
  pub session : Session
  pub current_turn : Turn
  pub historical_turns : List Turn
  pub runtime_settings : RuntimeSettings
  pub operator_profile : OperatorProfile
  pub knowledge_matches : List KnowledgeItem

-- `normalizeOperatorProfile`.
unfoldable pub normalize_operator_profile : OperatorProfile → OperatorProfile
normalize_operator_profile p =
    let strictness = trim_space p.approval_strictness in
    record p {
      id = if trim_space p.id == [] then default_operator_profile.id else p.id;
      approval_strictness =
          if strictness == [] then default_operator_profile.approval_strictness else strictness;
    }

-- `mergeRunModeIntoSettings`.
unfoldable pub merge_run_mode_into_settings : RuntimeSettings → Bool → RuntimeSettings
merge_run_mode_into_settings settings bypass = record (normalize_runtime_settings settings) {
  bypass_approvals = bypass;
}

-- A session with the `bypass_approvals` of a request, if it has one.
abbrev pub with_override : Option Bool → Session → Session
with_override none s = s
with_override (some b) s = record s { bypass_approvals = b }

abbrev pub new_run : Text → Text → Text → Text → Text → Bool → ℕ → Run
new_run id session_id turn_id host_id requested_by bypass at = record {
  id = id;
  session_id = session_id;
  turn_id = turn_id;
  host_id = host_id;
  status = run_status_created;
  requested_by = requested_by;
  bypass_approvals = bypass;
  pending_approval = [];
  pending_batch_id = [];
  pending_batch_total = 0;
  pending_batch_resolved = 0;
  tool_history = [];
  policy_history = [];
  final_response = [];
  failure_message = [];
  created_at = at;
  updated_at = at;
  completed_at = none;
}

abbrev pub new_turn : Text → Text → Text → Text → ContextSnapshot → Text → ℕ → Turn
new_turn id session_id host_id user_input snapshot run_id at = record {
  id = id;
  session_id = session_id;
  host_id = host_id;
  user_input = user_input;
  context_snapshot = snapshot;
  final_explanation = [];
  messages =
      record { role = bytes "user"; content = user_input; tool_calls = []; tool_call_id = [] } ∷ [];
  tool_results = [];
  prompt_stats = no_stats;
  run_id = run_id;
  created_at = at;
  updated_at = at;
}

-- The session once a run is added to it.
abbrev pub with_run : Text → Text → Text → ℕ → Session → Session
with_run turn_id run_id input at s = record s {
  turn_ids = s.turn_ids ++ (turn_id ∷ []);
  run_ids = s.run_ids ++ (run_id ∷ []);
  last_input = input;
  updated_at = at;
}

-- `summarizeSession`.
unfoldable pub summarize_session : Session → Turn → Text → Text
summarize_session session turn outcome =
    let summary = trim_space session.memory.rolling_summary in
    if not (summary == [])
    then summary
    else bytes "Last request: " ++ (turn.user_input ++ (bytes "\nLast outcome: " ++ outcome))

-- What an operation that can fail outside of the store gave.
abbrev pub of_outside {ℓ} : {A : Type ℓ} → Result Text A → M A
of_outside (ok a) = return a
of_outside (err why) = fail (outside_error why)

-- The clock, the disk, the builder, and `SelectKnowledge`.
module _ (clock : ℕ → ℕ) (disk : Disk) where
  -- What follows `GetOperatorProfile`.
  unfoldable pub profile_found : Option OperatorProfile → M OperatorProfile
  profile_found (some p) = return (normalize_operator_profile p)
  profile_found none = do
    at ← now clock
    let profile : OperatorProfile = record default_operator_profile { updated_at = at }
    _ ← save_operator_profile disk profile
    return profile

  -- `OperatorProfile`.
  unfoldable pub operator_profile : M OperatorProfile
  unfolding profile_found
  operator_profile = do found ← get_operator_profile disk; profile_found found

  -- The session of another id than those that are stored.
  unfoldable pub start_session : Host → Text → Bool → Option Bool → M Session
  start_session host user_input bypass override = do
    at ← now clock
    id ← fresh_id clock (bytes "session")
    let session = with_override override (new_session id host.id user_input bypass at)
    _ ← save_session disk session
    return session

  -- The session that was found for the id of the request.
  unfoldable pub continue_session : Host → Text → Bool → Option Bool → Option Session → M Session
  unfolding start_session
  continue_session host user_input bypass override none =
      start_session host user_input bypass override
  continue_session host user_input bypass override (some s) =
      if not (s.host_id == []) && not (s.host_id == host.id)
      then fail (session_belongs s.id s.host_id host.id)
      else return (with_override override s)

  -- `ensureSession`.
  unfoldable pub ensure_session : Host → Text → Text → Bool → Option Bool → M Session
  unfolding start_session continue_session
  ensure_session host session_id user_input bypass override =
      if session_id == []
      then start_session host user_input bypass override
      else get_session disk session_id >>= continue_session host user_input bypass override

  -- The settings of a request under a profile, or the refusal to bypass approvals.
  unfoldable pub allowed_settings :
      OperatorProfile → Option Bool → RuntimeSettings → M RuntimeSettings
  allowed_settings profile (some true) settings =
      if profile.allow_bypass_approvals then return settings else fail bypass_not_allowed
  allowed_settings profile _ settings = return (
      if profile.allow_bypass_approvals
      then settings
      else record settings { bypass_approvals = false })

  module _ (b : Builder)
      (select_knowledge : Text → ℤ → World → Result Text (List KnowledgeItem)) where
    -- The saves of `CreateRun`.
    unfoldable pub store_run :
        RunRequest → Host → OperatorProfile → Session → List KnowledgeItem → M Run
    store_run request host profile session knowledge = do
      at ← now clock
      turn_id ← fresh_id clock (bytes "turn")
      run_id ← fresh_id clock (bytes "run")
      let run =
          new_run run_id session.id turn_id host.id request.requested_by session.bypass_approvals at
      let snapshot = build b host session request.user_input profile knowledge
      _ ← save_session disk (with_run turn_id run_id request.user_input at session)
      _ ← save_turn disk (new_turn turn_id session.id host.id request.user_input snapshot run_id at)
      _ ← save_run disk run
      _ ←
          announce clock disk run_id (bytes "run.created") (bytes "run created")
            ((bytes "session_id", text session.id)
              ∷ (bytes "turn_id", text turn_id)
              ∷ (bytes "host_id", text host.id)
              ∷ [])
            at
      return run

    -- `CreateRun`, but for the start of `processRun`.
    unfoldable pub create_run : RunRequest → M Run
    unfolding operator_profile allowed_settings ensure_session store_run
    create_run request = do
      found ← get_host disk request.host_id
      host ← found_or (host_not_found request.host_id) found
      profile ← operator_profile
      settings ← (λ w.
          allowed_settings profile request.bypass_approvals (normalize_runtime_settings w.settings)
            w)
      session ←
          ensure_session host request.session_id request.user_input settings.bypass_approvals
            request.bypass_approvals
      at ← now clock
      memory ← of_outside (ensure_host_profile b at host session.memory settings)
      knowledge ←
          (λ w. of_outside (select_knowledge request.user_input settings.sop_retrieval_limit w) w)
      store_run request host profile (record session { memory = memory }) knowledge
