-- ===== src/Gateway/Process.antt =====
-- `processRun` of internal/gateway/service.go, cut where `Execute` runs: `prepare_run` up to the call,
-- and `finish_run` behind it. The settings are read once, at the start.
pub mod Frame
pub mod Finish
use ops_terminator.Base.{
  ℕ, Bool, false, not, ◌||◌, List, [], ◌∷◌, Option, none, some, Result, ok, err, ◌==◌, text_eq,
  nat_eq, if◌then◌else◌, leb,
}
use ops_terminator.Base.Text.{Text, bytes}
use ops_terminator.Models.{Run, run_status_running_agent}
use ops_terminator.Models.Sessions.{
  Float64, Session, Turn, OperatorProfile, ExecutionResult, run_status_completed, run_status_failed,
}
use ops_terminator.Store.{Disk, list_objects}
use ops_terminator.Agent.Settings.{RuntimeSettings}
use ops_terminator.Gateway.Runs.{ExecutionInput, merge_run_mode_into_settings, summarize_session}
use ops_terminator.Gateway.Service.{
  ◌>>=◌, World, run_not_found, M, return, ignore, lift, found_or, now, fresh_id, get_host,
  get_session, get_turn, get_run, save_session, save_turn, save_run, audit_entry, announce,
}
use ops_terminator.Gateway.Zero.{or_zero, no_turn, no_session, no_host}
use ops_terminator.Gateway.Capture.{capture_knowledge_candidate}

-- The turns of the session but the current one.
unfoldable pub history_turns : Text → Text → List Turn → List Turn
history_turns session_id turn_id [] = []
history_turns session_id turn_id (t ∷ turns) =
    let rest = history_turns session_id turn_id turns in
    if not (t.session_id == session_id) || t.id == turn_id then rest else t ∷ rest

-- `sort.Slice` by `CreatedAt`.
unfoldable pub insert_by_created : Turn → List Turn → List Turn
insert_by_created t [] = t ∷ []
insert_by_created t (u ∷ turns) =
    let later = insert_by_created t turns in
    if leb t.created_at u.created_at then t ∷ u ∷ turns else u ∷ later

unfoldable pub sort_by_created : List Turn → List Turn
unfolding insert_by_created
sort_by_created [] = []
sort_by_created (t ∷ turns) = insert_by_created t (sort_by_created turns)

-- The settings of a run: its mode, under the profile that its turn was created with.
unfoldable pub run_settings : RuntimeSettings → Bool → OperatorProfile → RuntimeSettings
run_settings settings bypass profile =
    let merged = merge_run_mode_into_settings settings bypass in
    if profile.allow_bypass_approvals then merged else record merged { bypass_approvals = false }

-- The run when it fails and when it completes.
unfoldable pub failed_run : Text → ℕ → Run → Run
failed_run why at run = record run {
  status = run_status_failed;
  failure_message = why;
  pending_approval = [];
  pending_batch_id = [];
  pending_batch_total = 0;
  pending_batch_resolved = 0;
  completed_at = some at;
  updated_at = at;
}

unfoldable pub completed_run : Text → ℕ → Run → Run
completed_run response at run = record run {
  status = run_status_completed;
  pending_approval = [];
  pending_batch_id = [];
  pending_batch_total = 0;
  pending_batch_resolved = 0;
  final_response = response;
  completed_at = some at;
  updated_at = at;
}

unfoldable pub completed_turn : ExecutionResult → ℕ → Turn → Turn
completed_turn result at turn = record turn {
  final_explanation = result.final_response;
  messages = result.messages;
  tool_results = result.tool_results;
  prompt_stats = result.prompt_stats;
  updated_at = at;
}

unfoldable pub completed_session : ExecutionResult → ℕ → Turn → Session → Session
unfolding summarize_session
completed_session result at turn session =
    let s = record session { last_outcome = result.final_response; memory = result.memory } in
    record s { summary = summarize_session s turn result.final_response; updated_at = at }

module _ (clock : ℕ → ℕ) (disk : Disk) where
  -- `processRun` up to `Execute`. An early return is an error here, which `processRun` drops.
  unfoldable pub prepare_run : Text → M ExecutionInput
  unfolding history_turns sort_by_created run_settings
  prepare_run run_id = do
    found ← get_run disk run_id
    run ← found_or (run_not_found run_id) found
    found_turn ← get_turn disk run.turn_id
    let turn = or_zero no_turn found_turn
    found_session ← get_session disk run.session_id
    let session = or_zero no_session found_session
    found_host ← get_host disk run.host_id
    at ← now clock
    let running : Run = record run { status = run_status_running_agent; updated_at = at }
    _ ← ignore (save_run disk running)
    turns ← (λ w. lift (list_objects disk (bytes "turns") w.turns) w)
    λ w.
        return
          (record {
            run = running;
            host = or_zero no_host found_host;
            session = session;
            current_turn = turn;
            historical_turns = sort_by_created (history_turns session.id turn.id turns);
            runtime_settings =
                run_settings w.settings running.bypass_approvals
                  turn.context_snapshot.operator_profile;
            operator_profile = turn.context_snapshot.operator_profile;
            knowledge_matches = turn.context_snapshot.knowledge_matches;
          })
          w

  -- What follows `Execute` where it failed, with the message, and where it did not.
  unfoldable pub finish_failed : Text → Run → M (Unit {0})
  unfolding failed_run
  finish_failed why run = do
    at ← now clock
    _ ← ignore (save_run disk (failed_run why at run))
    announce clock disk run.id (bytes "run.failed") why [] at

  unfoldable pub finish_completed :
      Option (Text → Text → Result Text (List Float64))
      → ExecutionInput
      → ExecutionResult
      → Run
      → M (Unit {0})
  unfolding completed_run completed_turn completed_session capture_knowledge_candidate
  finish_completed embed input result run = do
    at ← now clock
    let run' = completed_run result.final_response at run
    let turn = completed_turn result at input.current_turn
    _ ← ignore (save_run disk run')
    _ ← ignore (save_turn disk turn)
    _ ← ignore (save_session disk (completed_session result at turn input.session))
    id ← fresh_id clock (bytes "audit")
    _ ← ignore (
        audit_entry disk (record {
          id = id;
          run_id = run'.id;
          kind = bytes "run_completed";
          summary = result.final_response;
          payload = [];
          created_at = at;
        }))
    _ ← capture_knowledge_candidate clock disk embed run' turn result
    announce clock disk run'.id (bytes "run.completed") result.final_response [] at

  -- The branch on the error of `Execute`.
  unfoldable pub finish_with :
      Option (Text → Text → Result Text (List Float64))
      → ExecutionInput
      → ExecutionResult
      → Option Text
      → Run
      → M (Unit {0})
  unfolding finish_failed finish_completed
  finish_with embed input result (some why) run = finish_failed why run
  finish_with embed input result none run = finish_completed embed input result run

  -- `processRun` from the return of `Execute`.
  unfoldable pub finish_run :
      Option (Text → Text → Result Text (List Float64))
      → ExecutionInput
      → ExecutionResult
      → Option Text
      → M (Unit {0})
  unfolding finish_with
  finish_run embed input result error = do
    at ← now clock
    finish_with embed input result error (record input.run {
      tool_history = result.tool_history;
      policy_history = result.policy_history;
      updated_at = at;
    })

  -- `processRun`; `execute` is `Execute` with all that other handlers do while it runs.
  unfoldable pub process_run :
      Option (Text → Text → Result Text (List Float64))
      → (ExecutionInput → World → World × ExecutionResult × Option Text)
      → Text
      → M (Unit {0})
  unfolding prepare_run finish_run
  process_run embed execute run_id = ignore (do
    input ← prepare_run run_id
    λ w. let (w', result, error) = execute input w in finish_run embed input result error w')
