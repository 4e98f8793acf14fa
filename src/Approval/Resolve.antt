-- ===== src/Approval/Resolve.antt =====
-- `Resolve` of internal/approval/manager.go.
pub mod Guarded
pub mod Accepted
pub mod LostWakeup
pub mod Final
use ops_terminator.Base.{
  ℕ, suc, ◌+◌, Bool, true, false, not, ◌&&◌, List, [], ◌∷◌, ◌++◌, Option, none, some, Result, ok,
  err, ◌>>=◌, ◌==◌, nat_eq, text_eq, ltb, leb, if◌then◌else◌, is_empty, map,
}
use ops_terminator.Base.Text.{
  Text, bytes, trim_space, to_lower, equal_fold, one_of, first_non_empty,
}
use ops_terminator.Models.{
  ActionPreview, PolicyRule, Approval, Run, Event, PayloadValue, text, texts, number, ToolCall,
  policy_decision_deny, approval_decision_approve, approval_decision_reject,
  approval_decision_force_approve, new_id, run_status_running_agent, run_status_waiting_approval,
  decision_source_user,
}
use ops_terminator.Store.{Disk, StoreError, Table, get_object, save_object, list_objects}
use ops_terminator.Approval.State.{
  BatchRequest, PendingBatch, World, ApprovalError, store_error, approval_not_found,
  requires_force_approve, unsupported_decision, normalize_decision, is_approved_decision, of_batch,
  sort_by_index, is_decided, resolved_count, pending_id, count_approvals, all_decided, find_batch,
  put_batch, delete_batch, mark_batch_if_complete, now, tick, record_event, list_batch_approvals,
  update_run,
}

-- The fields of the run that `Resolve` sets from the approvals of the batch.
unfoldable pub resolved_run : Text → List Approval → ℕ → Run → Run
resolved_run batch_id approvals at run = record run {
  pending_approval = pending_id approvals;
  pending_batch_id = batch_id;
  pending_batch_total = count_approvals approvals;
  pending_batch_resolved = resolved_count approvals;
  updated_at = at;
  status =
      if leb (count_approvals approvals) (resolved_count approvals)
      then run_status_running_agent
      else run_status_waiting_approval;
}

abbrev pub Resolved : Type 0
Resolved = World × Result ApprovalError (Approval × Bool)

-- The approval with its decision.
abbrev pub decided : Approval → Text → Text → ℕ → Approval
decided approval decision actor at = record approval {
  decision = decision;
  decision_source = decision_source_user;
  resolved_by = actor;
  resolved_at = some at;
}

-- The clock's readings, in nanoseconds, and which files the disk refuses.
module _ (clock : ℕ → ℕ) (disk : Disk) where
  -- The event of a policy that was overridden.
  unfoldable pub record_override : Approval → Text → ℕ → World → World
  unfolding record_event
  record_override approval actor at w =
      if equal_fold approval.decision approval_decision_force_approve
      then record_event clock approval.run_id (bytes "run.policy_override_resolved")
          (bytes "policy deny overridden by force approve")
          ((bytes "approval_id", text approval.id)
            ∷ (bytes "tool_name", text approval.tool_name)
            ∷ (bytes "actor", text actor)
            ∷ [])
          at w
      else w

  -- What follows `listBatchApprovals`.
  pub after_list : Approval → Text → ℕ → World → Result ApprovalError (List Approval) → Resolved
  after_list approval actor at w (err e) = (w, err e)
  after_list approval actor at w (ok all) =
      let w1 = update_run disk approval.run_id (resolved_run approval.batch_id all at) w in
      let w2 = record_override approval actor at w1 in
      (
        mark_batch_if_complete approval.batch_id all w2,
        ok (approval, is_approved_decision approval.decision),
      )

  -- What follows the write of the approval.
  after_save : Approval → Text → ℕ → World → Result StoreError (Table Approval) → Resolved
  unfolding after_list
  after_save approval actor at w (err e) = (w, err (store_error e))
  after_save approval actor at w (ok approvals) =
      let w' = record w { approvals = approvals } in
      after_list approval actor at w' (list_batch_approvals disk approval.batch_id w')

  -- What follows `normalizeDecision`.
  after_normalize : Approval → Text → World → Result ApprovalError Text → Resolved
  unfolding after_save
  after_normalize approval actor w (err e) = (w, err e)
  after_normalize approval actor w (ok decision) =
      let at = now clock w in
      let approval' = decided approval decision actor at in
      after_save approval' actor at (tick w)
        (save_object disk (bytes "approvals") approval.id approval' w.approvals)

  -- What follows `GetApproval`.
  after_get : Text → Text → Text → World → Result StoreError (Option Approval) → Resolved
  unfolding after_normalize
  after_get id decision actor w (err e) = (w, err (store_error e))
  after_get id decision actor w (ok none) = (w, err (approval_not_found id))
  after_get id decision actor w (ok (some approval)) =
      if is_decided approval
      then (w, ok (approval, is_approved_decision approval.decision))
      else after_normalize approval actor w (normalize_decision decision approval.policy_decision)

  -- `Resolve`.
  unfoldable pub resolve : Text → Text → Text → World → Resolved
  unfolding after_get
  resolve id decision actor w =
      after_get id decision actor w (get_object disk (bytes "approvals") id w.approvals)
