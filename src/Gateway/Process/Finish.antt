-- ===== src/Gateway/Process/Finish.antt =====
-- What `processRun` leaves in the store.
use ops_terminator.Base.{
  ℕ, suc, true, List, [], Option, none, some, Result, ok, ◌≡◌, refl, sym, ap, ◌∙◌, subst, text_eq,
}
use ops_terminator.Base.Text.{Text, bytes}
use ops_terminator.Models.{Run, new_id}
use ops_terminator.Models.Sessions.{
  Float64, Session, Turn, ExecutionResult, run_status_completed, run_status_failed,
}
use ops_terminator.Store.{Disk, lookup, write_file, save_object}
use ops_terminator.Gateway.Service.{
  World, GatewayError, M, and_then, ◌>>=◌, ignore, now, fresh_id, save_run, save_turn, save_session,
}
use ops_terminator.Gateway.Service.Frame.{SameTables, lookup-write_file_self, announce-SameTables}
use ops_terminator.Gateway.Process.Frame.{
  bind-SameTables, audit_entry-SameTables, capture-SameTables,
}
use ops_terminator.Gateway.Runs.{ExecutionInput}
use ops_terminator.Gateway.Process.{
  completed_run, failed_run, completed_turn, completed_session, finish_failed, finish_completed,
  finish_with, finish_run, prepare_run, process_run,
}

-- The run and the session are stored.
pub record IsSaved (r : Run) (s : Session) (w : World) : Type 0 where
  pub of_run : lookup r.id w.runs ≡ some r
  pub of_session : lookup s.id w.sessions ≡ some s

IsSaved-later :
    (r : Run) (s : Session) (w v : World) → SameTables w v → IsSaved r s w → IsSaved r s v
IsSaved-later r s w v k h = record {
  of_run = ap (lookup r.id) k.runs ∙ h.of_run;
  of_session = ap (lookup s.id) k.sessions ∙ h.of_session;
}

abbrev pub or_status : Option Text → Text
or_status none = run_status_completed
or_status (some why) = run_status_failed

-- How a run ends: completed, or failed if there is an error; nothing is pending and the time is set.
pub record IsEnded (error : Option Text) (r : Run) : Type 0 where
  pub status : r.status ≡ or_status error
  pub no_approval : r.pending_approval ≡ []
  pub no_batch : r.pending_batch_id ≡ []
  pub no_total : r.pending_batch_total ≡ 0
  pub no_resolved : r.pending_batch_resolved ≡ 0
  pub ended_at : ℕ
  pub completed_at : r.completed_at ≡ some ended_at

-- A step whose result is dropped, and a reading of the clock, before what follows.
after_ignored :
    {A B : Type 0} (P : World → Type 0) (m : M A) (f : Unit {0} → M B) (w : World)
    → P (f tt (m w).0).0
    → P ((ignore m >>= f) w).0
unfolding ignore ◌>>=◌ and_then
after_ignored P m f w h = h

after_now :
    {B : Type 0} (P : World → Type 0) (clock : ℕ → ℕ) (f : ℕ → M B) (w : World)
    → P (f (clock w.readings) (record w { readings = suc w.readings })).0
    → P ((now clock >>= f) w).0
unfolding ◌>>=◌ and_then
after_now P clock f w h = h

after_fresh_id :
    {B : Type 0} (P : World → Type 0) (clock : ℕ → ℕ) (prefix : Text) (f : Text → M B) (w : World)
    → P (f (new_id prefix (clock w.readings)) (record w { readings = suc w.readings })).0
    → P ((fresh_id clock prefix >>= f) w).0
unfolding ◌>>=◌ and_then
after_fresh_id P clock prefix f w h = h

module _ (clock : ℕ → ℕ) (disk : Disk)
    (embed : Option (Text → Text → Result Text (List Float64))) where
  -- A disk that refuses no write takes what is saved.
  module _ (healthy : (dir id : Text) → disk.writable dir id ≡ true) where
    save_session_lem :
        (s : Session) (w : World)
        → (save_session disk s w).0 ≡ record w { sessions = write_file s.id s w.sessions }
    unfolding save_session save_object
    save_session_lem s w = rw (healthy (bytes "sessions") s.id) refl

    save_turn_lem :
        (t : Turn) (w : World)
        → (save_turn disk t w).0 ≡ record w { turns = write_file t.id t w.turns }
    unfolding save_turn save_object
    save_turn_lem t w = rw (healthy (bytes "turns") t.id) refl

    save_run_lem :
        (r : Run) (w : World) → (save_run disk r w).0 ≡ record w { runs = write_file r.id r w.runs }
    unfolding save_run save_object
    save_run_lem r w = rw (healthy (bytes "runs") r.id) refl

    -- The saves of a run that completes.
    saves_lem :
        (r : Run) (t : Turn) (s : Session) (w : World)
        → (save_session disk s (save_turn disk t (save_run disk r w).0).0).0 ≡ record w {
          runs = write_file r.id r w.runs;
          turns = write_file t.id t w.turns;
          sessions = write_file s.id s w.sessions;
        }
    saves_lem r t s w =
        ap (λ v. (save_session disk s (save_turn disk t v).0).0) (save_run_lem r w)
        ∙ (ap (λ v. (save_session disk s v).0) (save_turn_lem t _) ∙ save_session_lem s _)

    saves-IsSaved :
        (r : Run) (t : Turn) (s : Session) (w : World)
        → IsSaved r s (save_session disk s (save_turn disk t (save_run disk r w).0).0).0
    saves-IsSaved r t s w = subst (IsSaved r s) (sym (saves_lem r t s w)) (record {
      of_run = lookup-write_file_self r.id r w.runs;
      of_session = lookup-write_file_self s.id s w.sessions;
    })

    readings-IsSaved :
        {r : Run} {s : Session} {w : World} (n : ℕ)
        → IsSaved r s w
        → IsSaved r s (record w { readings = n })
    readings-IsSaved n h = record { of_run = h.of_run; of_session = h.of_session }

    finish_completed-IsSaved :
        (input : ExecutionInput) (result : ExecutionResult) (run : Run) (w : World)
        → IsSaved
            (completed_run result.final_response (clock w.readings) run)
            (completed_session result
              (clock w.readings)
              (completed_turn result (clock w.readings) input.current_turn)
              input.session)
            (finish_completed clock disk embed input result run w).0
    unfolding finish_completed
    finish_completed-IsSaved input result run w = after_now (IsSaved _ _) clock _ w (
        after_ignored (IsSaved _ _) _ _ _ (
          after_ignored (IsSaved _ _) _ _ _ (
            after_ignored (IsSaved _ _) _ _ _ (
              after_fresh_id (IsSaved _ _) clock _ _ _ (
                after_ignored (IsSaved _ _) _ _ _ (
                  IsSaved-later _ _ _ _
                    (bind-SameTables _ _ _
                      (capture-SameTables clock disk embed
                        (completed_run result.final_response (clock w.readings) run)
                        (completed_turn result (clock w.readings) input.current_turn) result _)
                      (λ _ v. announce-SameTables clock disk _ _ _ _ _ v))
                    (IsSaved-later _ _ _ _ (audit_entry-SameTables disk _ _) (
                      readings-IsSaved _ (
                        saves-IsSaved (completed_run result.final_response (clock w.readings) run)
                          (completed_turn result (clock w.readings) input.current_turn) _ _)))))))))

    -- The run as `Execute` left it.
    abbrev ran : ExecutionInput → ExecutionResult → World → Run
    ran input result w = record input.run {
      tool_history = result.tool_history;
      policy_history = result.policy_history;
      updated_at = clock w.readings;
    }

    finish_run-IsEnded :
        (input : ExecutionInput) (result : ExecutionResult) (error : Option Text) (w : World)
        → (r : Run) × (lookup input.run.id (finish_run clock disk embed input result error w).0.runs
            ≡ some r)
          × IsEnded error r
    unfolding finish_run finish_with finish_failed ◌>>=◌ and_then ignore completed_run failed_run
    finish_run-IsEnded input result none w =
        let saved =
          finish_completed-IsSaved input result (ran input result w)
            (record w { readings = suc w.readings }) in
        (
          completed_run result.final_response (clock (suc w.readings)) (ran input result w),
          saved.of_run,
          record {
            status = refl;
            no_approval = refl;
            no_batch = refl;
            no_total = refl;
            no_resolved = refl;
            ended_at = clock (suc w.readings);
            completed_at = refl;
          },
        )
    finish_run-IsEnded input result (some why) w =
        let at = clock (suc w.readings) in
        let r = failed_run why at (ran input result w) in
        let w1 : World = record w { readings = suc (suc w.readings) } in
        (
          r,
          ap (lookup input.run.id)
                (announce-SameTables clock disk _ _ _ _ at (save_run disk r w1).0).runs
              ∙ (ap (λ (v : World). lookup input.run.id v.runs) (save_run_lem r w1)
                  ∙ lookup-write_file_self input.run.id r w.runs),
          record {
            status = refl;
            no_approval = refl;
            no_batch = refl;
            no_total = refl;
            no_resolved = refl;
            ended_at = at;
            completed_at = refl;
          },
        )

    finish_run-session :
        (input : ExecutionInput) (result : ExecutionResult) (w : World)
        → (s : Session) × (lookup input.session.id
              (finish_run clock disk embed input result none w).0.sessions
            ≡ some s)
          × (s.turn_ids ≡ input.session.turn_ids)
          × (s.run_ids ≡ input.session.run_ids)
          × (s.bypass_approvals ≡ input.session.bypass_approvals)
    unfolding finish_run finish_with ◌>>=◌ and_then completed_session
    finish_run-session input result w =
        let saved =
          finish_completed-IsSaved input result (ran input result w)
            (record w { readings = suc w.readings }) in
        (_, saved.of_session, refl, refl, refl)

    -- `processRun` behind a start that succeeded.
    process_run_lem :
        (execute : ExecutionInput → World → World × ExecutionResult × Option Text) (run_id : Text)
        (w w1 : World) (input : ExecutionInput)
        → prepare_run clock disk run_id w ≡ (w1, ok input)
        → (process_run clock disk embed execute run_id w).0
          ≡ (finish_run clock disk embed input
              (execute input w1).1
              (execute input w1).2
              (execute input w1).0).0
    unfolding process_run ignore ◌>>=◌ and_then
    process_run_lem execute run_id w w1 input h =
        ap
          (λ (r : World × Result GatewayError ExecutionInput).
            (and_then
              (λ i v. finish_run clock disk embed i (execute i v).1 (execute i v).2 (execute i v).0)
              r).0)
          h

-- A run that `processRun` has read, with its turn, session and host, is stored as completed when
-- `Execute` returns no error, else as failed, with no pending approval or batch and with the time of
-- its end, whatever other handlers do while `Execute` runs, if the disk refuses no write.
pub process_run-IsEnded :
    (clock : ℕ → ℕ) (disk : Disk) (embed : Option (Text → Text → Result Text (List Float64)))
    (execute : ExecutionInput → World → World × ExecutionResult × Option Text) (run_id : Text)
    (w w1 : World) (input : ExecutionInput)
    → ((dir id : Text) → disk.writable dir id ≡ true)
    → prepare_run clock disk run_id w ≡ (w1, ok input)
    → (r : Run) × (lookup input.run.id (process_run clock disk embed execute run_id w).0.runs
        ≡ some r)
      × IsEnded (execute input w1).2 r
process_run-IsEnded clock disk embed execute run_id w w1 input healthy h =
    let (r, found, ended) =
      finish_run-IsEnded clock disk embed healthy input (execute input w1).1 (execute input w1).2
        (execute input w1).0 in
    (
      r,
      ap (λ (v : World). lookup input.run.id v.runs)
            (process_run_lem clock disk embed healthy execute run_id w w1 input h)
          ∙ found,
      ended,
    )

-- When `Execute` returns no error, the session that is stored has the turns, the runs and the mode of
-- the session as `processRun` read it before `Execute`, whatever other handlers store for the session
-- while `Execute` runs, if the disk refuses no write.
pub process_run-sessions :
    (clock : ℕ → ℕ) (disk : Disk) (embed : Option (Text → Text → Result Text (List Float64)))
    (execute : ExecutionInput → World → World × ExecutionResult × Option Text) (run_id : Text)
    (w w1 : World) (input : ExecutionInput)
    → ((dir id : Text) → disk.writable dir id ≡ true)
    → prepare_run clock disk run_id w ≡ (w1, ok input)
    → (execute input w1).2 ≡ none
    → (s : Session) × (lookup input.session.id
          (process_run clock disk embed execute run_id w).0.sessions
        ≡ some s)
      × (s.turn_ids ≡ input.session.turn_ids)
      × (s.run_ids ≡ input.session.run_ids)
      × (s.bypass_approvals ≡ input.session.bypass_approvals)
process_run-sessions clock disk embed execute run_id w w1 input healthy h success =
    let result = (execute input w1).1 in
    let (s, found, turns, runs, bypass) =
      finish_run-session clock disk embed healthy input result (execute input w1).0 in
    let path =
      process_run_lem clock disk embed healthy execute run_id w w1 input h
      ∙ ap (λ e. (finish_run clock disk embed input result e (execute input w1).0).0) success in
    (s, ap (λ (v : World). lookup input.session.id v.sessions) path ∙ found, turns, runs, bypass)
