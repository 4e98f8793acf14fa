-- ===== src/Approval/State/Frame.antt =====
-- What the shared operations of the manager leave unchanged.
use ops_terminator.Base.{
  true, not, ◌&&◌, List, [], ◌∷◌, Option, none, some, Result, ok, err, ◌≡◌, ◌≢◌, inl, inr, refl,
  arith, Bool-cases, ◌==◌, text_eq, ==_iff, if◌then◌else◌, is_empty,
}
use ops_terminator.Base.Text.{Text}
use ops_terminator.Models.{Approval, Run}
use ops_terminator.Store.{Disk, StoreError, Table}
use ops_terminator.Approval.State.{
  World, PendingBatch, find_batch, put_batch, close_found, mark_batch_if_complete,
  save_run_ignoring, update_found, update_run, all_decided,
}

-- The approvals and the batches of two worlds are the same.
pub record SameBatches (w w' : World) : Type 0 where
  pub approvals : w'.approvals ≡ w.approvals
  pub batches : w'.batches ≡ w.batches

save_run_ignoring-SameBatches :
    (run : Run) (w : World) (r : Result StoreError (Table Run))
    → SameBatches w (save_run_ignoring run w r)
unfolding save_run_ignoring
save_run_ignoring-SameBatches run w (ok runs) = record { approvals = refl; batches = refl }
save_run_ignoring-SameBatches run w (err _) = record { approvals = refl; batches = refl }

update_found-SameBatches :
    (disk : Disk) (f : Run → Run) (w : World) (r : Result StoreError (Option Run))
    → SameBatches w (update_found disk f w r)
unfolding update_found
update_found-SameBatches disk f w (ok (some run)) = save_run_ignoring-SameBatches (f run) w _
update_found-SameBatches disk f w (ok none) = record { approvals = refl; batches = refl }
update_found-SameBatches disk f w (err _) = record { approvals = refl; batches = refl }

pub update_run-SameBatches :
    (disk : Disk) (run_id : Text) (f : Run → Run) (w : World)
    → SameBatches w (update_run disk run_id f w)
unfolding update_run
update_run-SameBatches disk run_id f w = update_found-SameBatches disk f w _

pub approvals-mark_batch_if_complete :
    (id : Text) (as' : List Approval) (w : World)
    → (mark_batch_if_complete id as' w).approvals ≡ w.approvals
unfolding mark_batch_if_complete
approvals-mark_batch_if_complete id as' w =
    elim (Bool-cases (not (is_empty as') && all_decided as')) [
      | inl e ↦ rw e (closed (find_batch id w.batches))
      | inr e ↦ rw e
    ]
  where
    closed : (found : Option PendingBatch) → (close_found id found w).approvals ≡ w.approvals
    closed none = refl
    closed (some b) = ground arith

pub find_batch-put_batch :
    (id j : Text) (b : PendingBatch) (bs : List (Text × PendingBatch))
    → find_batch j (put_batch id b bs) ≡ (if id == j then some b else find_batch j bs)
unfolding find_batch put_batch
find_batch-put_batch id j b [] = refl
find_batch-put_batch id j b ((i, c) ∷ bs) =
    ground (arith, ==_iff id j, ==_iff i id, ==_iff i j, find_batch-put_batch id j b bs)

-- Closing one batch leaves the others as they are.
pub find_batch-mark_batch_if_complete :
    (id j : Text) (items : List Approval) (w : World)
    → id ≢ j
    → find_batch j (mark_batch_if_complete id items w).batches ≡ find_batch j w.batches
unfolding mark_batch_if_complete
find_batch-mark_batch_if_complete id j items w n =
    elim (Bool-cases (not (is_empty items) && all_decided items)) [
      | inl e ↦ rw e (closed (find_batch id w.batches))
      | inr e ↦ rw e
    ]
  where
    closed :
        (found : Option PendingBatch)
        → find_batch j (close_found id found w).batches ≡ find_batch j w.batches
    closed none = refl
    closed (some b) = ground (
      arith,
      ==_iff id j,
      find_batch-put_batch id j (record b { done = true; closed = true }) w.batches,
    )
