-- ===== src/Approval/Wait.antt =====
-- `WaitBatch` of internal/approval/manager.go, cut where other goroutines can run: `open_batch` up
-- to the lock, `register_batch` under it, and the two ends of the `select`.
use ops_terminator.Base.{
  ℕ, suc, false, List, [], ◌∷◌, ◌++◌, none, Result, ok, err, ◌>>=◌, ◌==◌, nat_eq, text_eq,
  if◌then◌else◌,
}
use ops_terminator.Base.Text.{Text, bytes, first_non_empty}
use ops_terminator.Models.{
  Approval, Run, text, texts, number, policy_decision_deny, new_id, run_status_waiting_approval,
}
use ops_terminator.Store.{Disk, StoreError, Table, save_object}
use ops_terminator.Approval.State.{
  BatchRequest, World, ApprovalError, store_error, count_approvals, put_batch, delete_batch, now,
  tick, record_event, list_batch_approvals, update_run,
}

-- The approval that `WaitBatch` makes of a request.
unfoldable pub requested : Text → Text → Text → ℕ → ℕ → BatchRequest → Approval
requested id run_id batch_id index at item = record {
  id = id;
  run_id = run_id;
  batch_id = batch_id;
  tool_call_id = item.tool_call.id;
  batch_index = index;
  tool_name = item.preview.tool_name;
  rule_id = item.rule.rule_id;
  rule_severity = item.rule.severity;
  rule_category = item.rule.category;
  reason = item.rule.reason;
  scope =
      first_non_empty
        (item.preview.command_preview ∷ item.rule.scope ∷ item.preview.tool_name ∷ []);
  safer_alternative = item.rule.safer_alternative;
  requested_by = bytes "gateway";
  policy_decision = item.rule.decision;
  decision = [];
  decision_source = [];
  resolved_by = [];
  created_at = at;
  resolved_at = none;
}

-- How far `WaitBatch` has come: it has returned, or it has created this batch.
pub data Begun : Type 0 where
  returned : Result ApprovalError (List Approval) → Begun
  created : Text → List Approval → Begun

abbrev first_id : List Approval → Text
first_id [] = []
first_id (a ∷ _) = a.id

-- `approvalIDs`.
unfoldable pub approval_ids : List Approval → List Text
approval_ids [] = []
approval_ids (a ∷ approvals) = a.id ∷ approval_ids approvals

-- The run while its batch is open.
unfoldable pub waiting_run : Text → List Approval → ℕ → Run → Run
waiting_run batch_id approvals at run = record run {
  status = run_status_waiting_approval;
  pending_approval = first_id approvals;
  pending_batch_id = batch_id;
  pending_batch_total = count_approvals approvals;
  pending_batch_resolved = 0;
  updated_at = at;
}

-- `m.batches[batchID] = batch`.
unfoldable pub register_batch : Text → Text → ℕ → World → World
register_batch run_id batch_id expected w = record w {
  batches =
      put_batch batch_id
        (record { run_id = run_id; expected = expected; done = false; closed = false }) w.batches;
}

-- The end of `WaitBatch` when the context is cancelled.
unfoldable pub cancel_wait : Text → World → World
cancel_wait batch_id w = record w { batches = delete_batch batch_id w.batches }

-- The clock's readings, in nanoseconds, and which files the disk refuses.
module _ (clock : ℕ → ℕ) (disk : Disk) where
  -- The event of a request to override a policy.
  record_override_request : Approval → BatchRequest → ℕ → World → World
  unfolding record_event
  record_override_request approval item at w =
      if item.rule.decision == policy_decision_deny
      then record_event clock approval.run_id (bytes "run.policy_override_requested")
          item.rule.reason
          ((bytes "approval_id", text approval.id)
            ∷ (bytes "tool_name", text approval.tool_name)
            ∷ (bytes "rule_id", text item.rule.rule_id)
            ∷ (bytes "severity", text item.rule.severity)
            ∷ [])
          at w
      else w

  -- The rest of one round of the loop, behind the write.
  save_requested :
      Approval
      → BatchRequest
      → ℕ
      → World
      → Result StoreError (Table Approval)
      → World × Result StoreError (Unit {0})
  unfolding record_override_request
  save_requested approval item at w (err e) = (w, err e)
  save_requested approval item at w (ok approvals) =
      (record_override_request approval item at (record w { approvals = approvals }), ok tt)

  -- The loop over the requests, from an index: the approvals, or the first error of the store.
  unfoldable pub save_requests :
      Text → Text → ℕ → ℕ → List BatchRequest → World → World × Result StoreError (List Approval)
  unfolding save_requested
  save_requests run_id batch_id at index [] w = (w, ok [])
  save_requests run_id batch_id at index (item ∷ items) w =
      let approval =
        requested (new_id (bytes "approval") (now clock w)) run_id batch_id index at item in
      let (w1, saved) =
        save_requested approval item at (tick w)
          (save_object disk (bytes "approvals") approval.id approval w.approvals) in
      let (w2, more) = save_requests run_id batch_id at (suc index) items w1 in
      elim saved [ err e ↦ (w1, err e) | ok _ ↦ (w2, (do rest ← more; ok (approval ∷ rest))) ]

  -- What follows the loop of `WaitBatch`, up to the lock.
  after_requests : Text → Text → ℕ → World × Result StoreError (List Approval) → World × Begun
  unfolding update_run record_event
  after_requests run_id batch_id at (w, err e) = (w, returned (err (store_error e)))
  after_requests run_id batch_id at (w, ok approvals) =
      let w1 = update_run disk run_id (waiting_run batch_id approvals at) w in
      let w2 =
        record_event clock run_id (bytes "run.waiting_approval")
          (bytes "审批批次 " ++ (batch_id ++ bytes " 已创建，等待人工处理。"))
          ((bytes "batch_id", text batch_id)
            ∷ (bytes "approval_ids", texts (approval_ids approvals))
            ∷ (bytes "pending_count", number (count_approvals approvals))
            ∷ [])
          at w1 in
      (w2, created batch_id approvals)

  -- `WaitBatch` up to the lock.
  unfoldable pub open_batch : Text → List BatchRequest → World → World × Begun
  unfolding save_requests after_requests
  open_batch run_id [] w = (w, returned (ok []))
  open_batch run_id (item ∷ items) w =
      let at = now clock w in
      let batch_id = new_id (bytes "approval_batch") (clock (suc w.readings)) in
      after_requests run_id batch_id at
        (save_requests run_id batch_id at 0 (item ∷ items) (tick (tick w)))

  -- The end of `WaitBatch` once the channel is closed, and the deferred `delete`.
  unfoldable pub finish_wait : Text → World → World × Result ApprovalError (List Approval)
  finish_wait batch_id w =
      (record w { batches = delete_batch batch_id w.batches }, list_batch_approvals disk batch_id w)
