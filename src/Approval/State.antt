-- ===== src/Approval/State.antt =====
-- The state of `Manager` of internal/approval/manager.go, and what its methods share: the tests on
-- decisions, the lists of a batch's approvals, and the map of the batches that are waited for.
pub mod Frame
use ops_terminator.Base.{
  ℕ, suc, ◌+◌, Bool, true, false, not, ◌&&◌, List, [], ◌∷◌, ◌++◌, Option, none, some, Result, ok,
  err, ◌>>=◌, ◌==◌, nat_eq, text_eq, ltb, leb, if◌then◌else◌, is_empty, map,
}
use ops_terminator.Base.Text.{
  Text, bytes, trim_space, to_lower, equal_fold, one_of, first_non_empty,
}
use ops_terminator.Models.{
  ActionPreview, PolicyRule, Approval, Run, Event, PayloadValue, text, texts, number, ToolCall,
  policy_decision_deny, approval_decision_approve, approval_decision_reject,
  approval_decision_force_approve, new_id, run_status_running_agent, run_status_waiting_approval,
  decision_source_user,
}
use ops_terminator.Store.{Disk, StoreError, Table, get_object, save_object, list_objects}

-- `BatchRequest`.
pub record BatchRequest : Type 0 where
  pub tool_call : ToolCall
  pub preview : ActionPreview
  pub rule : PolicyRule

-- `pendingBatch`; `done` says that the channel is closed.
pub record PendingBatch : Type 0 where
  pub run_id : Text
  pub expected : ℕ
  pub done : Bool
  pub closed : Bool

-- The stores, the recorded events, the manager's map, and how often the clock has been read.
pub record World : Type 0 where
  pub approvals : Table Approval
  pub runs : Table Run
  pub events : List Event
  pub batches : List (Text × PendingBatch)
  pub readings : ℕ

pub data ApprovalError : Type 0 where
  store_error : StoreError → ApprovalError
  approval_not_found : Text → ApprovalError
  requires_force_approve : ApprovalError
  unsupported_decision : Text → ApprovalError

-- `normalizeDecision`.
unfoldable pub normalize_decision : Text → Text → Result ApprovalError Text
normalize_decision decision policy_decision =
    let d = to_lower (trim_space decision) in
    if d == approval_decision_approve
    then (if policy_decision == policy_decision_deny
        then err requires_force_approve
        else ok approval_decision_approve)
    else if d == approval_decision_reject
    then ok approval_decision_reject
    else if d == approval_decision_force_approve
    then (if not (policy_decision == policy_decision_deny)
        then ok approval_decision_approve
        else ok approval_decision_force_approve)
    else err (unsupported_decision decision)

-- `isApprovedDecision`.
unfoldable pub is_approved_decision : Text → Bool
is_approved_decision decision =
    one_of (to_lower (trim_space decision))
      (approval_decision_approve ∷ approval_decision_force_approve ∷ [])

-- The items of one batch.
unfoldable pub of_batch : Text → List Approval → List Approval
of_batch id [] = []
of_batch id (a ∷ as') = let rest = of_batch id as' in if a.batch_id == id then a ∷ rest else rest

-- `sort.Slice` by `BatchIndex`.
unfoldable pub insert_by_index : Approval → List Approval → List Approval
insert_by_index a [] = a ∷ []
insert_by_index a (b ∷ bs) =
    let later = insert_by_index a bs in
    if leb a.batch_index b.batch_index then a ∷ b ∷ bs else b ∷ later

unfoldable pub sort_by_index : List Approval → List Approval
unfolding insert_by_index
sort_by_index [] = []
sort_by_index (a ∷ as') = insert_by_index a (sort_by_index as')

-- Whether an approval has a decision: `item.Decision != ""`.
abbrev pub is_decided : Approval → Bool
is_decided a = not (a.decision == [])

-- `resolvedCount`.
unfoldable pub resolved_count : List Approval → ℕ
resolved_count [] = 0
resolved_count (a ∷ as') = (if is_decided a then 1 else 0) + resolved_count as'

-- `pendingID`: the id of the first undecided approval, or "".
unfoldable pub pending_id : List Approval → Text
pending_id [] = []
pending_id (a ∷ as') = if is_decided a then pending_id as' else a.id

abbrev pub count_approvals : List Approval → ℕ
count_approvals [] = 0
count_approvals (_ ∷ as') = suc (count_approvals as')

-- `allResolved` of `markBatchIfComplete`.
unfoldable pub all_decided : List Approval → Bool
all_decided [] = true
all_decided (a ∷ as') = if is_decided a then all_decided as' else false

-- `m.batches[id]`, and an assignment to it and `delete`.
unfoldable pub find_batch : Text → List (Text × PendingBatch) → Option PendingBatch
find_batch id [] = none
find_batch id ((j, b) ∷ bs) = if j == id then some b else find_batch id bs

unfoldable pub put_batch :
    Text → PendingBatch → List (Text × PendingBatch) → List (Text × PendingBatch)
put_batch id b [] = (id, b) ∷ []
put_batch id b ((j, c) ∷ bs) = if j == id then (id, b) ∷ bs else (j, c) ∷ put_batch id b bs

unfoldable pub delete_batch : Text → List (Text × PendingBatch) → List (Text × PendingBatch)
delete_batch id [] = []
delete_batch id ((j, b) ∷ bs) =
    let rest = delete_batch id bs in if j == id then rest else (j, b) ∷ rest

-- The closing of a batch that is there and open.
close_found : Text → Option PendingBatch → World → World
close_found id none w = w
close_found id (some b) w =
    if b.closed
    then w
    else record w { batches = put_batch id (record b { done = true; closed = true }) w.batches }

-- `markBatchIfComplete`.
unfoldable pub mark_batch_if_complete : Text → List Approval → World → World
unfolding close_found
mark_batch_if_complete id approvals w =
    if not (is_empty approvals) && all_decided approvals
    then close_found id (find_batch id w.batches) w
    else w

-- The reading of the clock that comes next, and the world after it.
abbrev pub now : (ℕ → ℕ) → World → ℕ
now clock w = clock w.readings

abbrev pub tick : World → World
tick w = record w { readings = suc w.readings }

-- `_ = m.events.RecordEvent(...)` with a new id.
unfoldable pub record_event :
    (ℕ → ℕ) → Text → Text → Text → List (Text × PayloadValue) → ℕ → World → World
record_event clock run_id type_name message payload timestamp w = record w {
  events =
      w.events
      ++ (record {
        id = new_id (bytes "event") (now clock w);
        run_id = run_id;
        type_name = type_name;
        message = message;
        payload = payload;
        timestamp = timestamp;
      }
          ∷ []);
  readings = suc w.readings;
}

-- `listBatchApprovals`.
unfoldable pub list_batch_approvals : Disk → Text → World → Result ApprovalError (List Approval)
list_batch_approvals disk batch_id w = elim (list_objects disk (bytes "approvals") w.approvals) [
  | ok items ↦ ok (sort_by_index (of_batch batch_id items))
  | err e ↦ err (store_error e)
]

-- `_ = m.store.SaveRun(run)`.
save_run_ignoring : Run → World → Result StoreError (Table Run) → World
save_run_ignoring run w (ok runs) = record w { runs = runs }
save_run_ignoring run w (err _) = w

-- `if err == nil && found { ... }`, with what is done to the run.
update_found : Disk → (Run → Run) → World → Result StoreError (Option Run) → World
unfolding save_run_ignoring
update_found disk f w (ok (some run)) =
    save_run_ignoring (f run) w (save_object disk (bytes "runs") run.id (f run) w.runs)
update_found disk f w (ok none) = w
update_found disk f w (err _) = w

unfoldable pub update_run : Disk → Text → (Run → Run) → World → World
unfolding update_found
update_run disk run_id f w = update_found disk f w (get_object disk (bytes "runs") run_id w.runs)

abbrev pub batch_done : Option PendingBatch → Bool
batch_done none = false
batch_done (some b) = b.done

-- `<-batch.done` can be taken.
unfoldable pub is_done : Text → World → Bool
is_done batch_id w = batch_done (find_batch batch_id w.batches)
