-- ===== src/Approval/Resolve/LostWakeup.antt =====
-- A batch whose approvals are all decided before `WaitBatch` has registered it is never closed.
use ops_terminator.Base.{
  ℕ, true, false, List, [], ◌∷◌, Option, none, some, Result, ok, err, ◌≡◌, ◌≢◌, inl, inr, refl, sym,
  ap, arith, ◌∙◌, text_eq, ==-refl, Bool-cases,
}
use mathlib.Core.Bool.{false≢true}
use ops_terminator.Base.Text.{Text, bytes}
use ops_terminator.Models.{Approval}
use ops_terminator.Store.{Disk, StoreError, Table, get_object, save_object}
use ops_terminator.Store.Lookup.{
  AllFiles, AllFiles-write_file, AllFiles-lookup, get_object-eq-some, save_object-eq-ok,
}
use ops_terminator.Approval.State.{
  World, ApprovalError, normalize_decision, is_decided, find_batch, now, tick,
}
use ops_terminator.Approval.State.Frame.{
  update_run-SameBatches, find_batch-mark_batch_if_complete, find_batch-put_batch,
}
use ops_terminator.Approval.Resolve.{
  decided, resolved_run, record_override, after_list, after_save, after_normalize, after_get,
  resolve,
}
use ops_terminator.Approval.Resolve.Guarded.{approvals-after_list}
use ops_terminator.Approval.Wait.{register_batch}
use ops_terminator.Approval.State.{is_done, batch_done}

-- Calls of `Resolve`, one after the other: the id, the decision and the actor of each.
abbrev pub resolve_all : (ℕ → ℕ) → Disk → List (Text × Text × Text) → World → World
resolve_all clock disk [] w = w
resolve_all clock disk ((id, choice, actor) ∷ calls) w =
    resolve_all clock disk calls (resolve clock disk id choice actor w).0

-- Every stored approval of the batch is decided.
abbrev pub IsDecided : Text → World → Type 0
IsDecided batch_id w = AllFiles (λ a. a.batch_id ≡ batch_id → is_decided a ≡ true) w.approvals

module _ (clock : ℕ → ℕ) (disk : Disk) (batch_id : Text) where
  -- The batch is decided and its channel is open.
  abbrev IsStuck : World → Type 0
  IsStuck w = IsDecided batch_id w × (is_done batch_id w ≡ false)

  batches-record_override :
      (a : Approval) (actor : Text) (at : ℕ) (w : World)
      → (record_override clock disk a actor at w).batches ≡ w.batches
  unfolding record_override
  batches-record_override a actor at w = ground arith

  after_list-is_done :
      (a : Approval) (actor : Text) (at : ℕ) (w : World)
      (listed : Result ApprovalError (List Approval))
      → a.batch_id ≢ batch_id
      → is_done batch_id (after_list clock disk a actor at w listed).0 ≡ is_done batch_id w
  unfolding after_list is_done
  after_list-is_done a actor at w (err e) n = refl
  after_list-is_done a actor at w (ok all) n = ap batch_done (
      find_batch-mark_batch_if_complete a.batch_id batch_id all _ n
      ∙ ap (find_batch batch_id) (batches-record_override a actor at _)
      ∙ ap (find_batch batch_id)
          (update_run-SameBatches disk a.run_id (resolved_run a.batch_id all at) w).batches)

  after_save-IsStuck :
      (a : Approval) (d actor : Text) (at : ℕ) (w : World)
      (saved : Result StoreError (Table Approval))
      → a.batch_id ≢ batch_id
      → save_object disk (bytes "approvals") a.id (decided a d actor at) w.approvals ≡ saved
      → IsStuck w
      → IsStuck (after_save clock disk (decided a d actor at) actor at w saved).0
  unfolding after_save
  after_save-IsStuck a d actor at w (err e) n s h = h
  after_save-IsStuck a d actor at w (ok t) n s h = (
    rw
        (approvals-after_list clock disk (decided a d actor at) actor at
          (record w { approvals = t }) _)
        (rw (save_object-eq-ok disk _ a.id _ w.approvals s) (
          AllFiles-write_file (λ (b : Approval). b.batch_id ≡ batch_id → is_decided b ≡ true) a.id
            (decided a d actor at) w.approvals (λ e. absurd (n e)) h.0)),
    after_list-is_done (decided a d actor at) actor at (record w { approvals = t }) _ n
        ∙ (unfold is_done in h.1),
  )

  resolve-IsStuck :
      (id choice actor : Text) (w : World)
      → IsStuck w
      → IsStuck (resolve clock disk id choice actor w).0
  unfolding resolve is_done
  resolve-IsStuck id choice actor w h =
      by_get (get_object disk (bytes "approvals") id w.approvals) refl
    where
      by_normal :
          (a : Approval) (n : Result ApprovalError Text)
          → a.batch_id ≢ batch_id
          → IsStuck (after_normalize clock disk a actor w n).0
      by_normal a (err e) n = h
      by_normal a (ok d) n = after_save-IsStuck a d actor (now clock w) (tick w) _ n refl h

      by_get :
          (g : Result StoreError (Option Approval))
          → get_object disk (bytes "approvals") id w.approvals ≡ g
          → IsStuck (after_get clock disk id choice actor w g).0
      by_get (err e) g = h
      by_get (ok none) g = h
      by_get (ok (some a)) g = elim (Bool-cases (is_decided a)) [
        | inl e ↦ rw e h
        | inr e ↦ rw e (
            by_normal a (normalize_decision choice a.policy_decision) (λ same. false≢true (
              sym e
              ∙ AllFiles-lookup _ id w.approvals h.0 (get_object-eq-some disk _ id w.approvals g).0
                  same)))
      ]

  resolve_all-IsStuck :
      (calls : List (Text × Text × Text)) (w : World)
      → IsStuck w
      → IsStuck (resolve_all clock disk calls w)
  resolve_all-IsStuck [] w h = h
  resolve_all-IsStuck ((id, choice, actor) ∷ calls) w h =
      resolve_all-IsStuck calls _ (resolve-IsStuck id choice actor w h)

register_batch-is_done :
    (run_id batch_id : Text) (expected : ℕ) (w : World)
    → is_done batch_id (register_batch run_id batch_id expected w) ≡ false
unfolding is_done register_batch
register_batch-is_done run_id batch_id expected w =
    ap batch_done (find_batch-put_batch batch_id batch_id _ w.batches) ∙ rw (==-refl batch_id)

-- If every approval of a batch has been decided when `WaitBatch` registers the batch, then no later
-- calls of `Resolve`, whatever they are, close its channel: the wait ends by the context alone.
pub register_batch-never_done :
    (clock : ℕ → ℕ) (disk : Disk) (run_id batch_id : Text) (expected : ℕ) (w : World)
    (calls : List (Text × Text × Text))
    → IsDecided batch_id w
    → is_done batch_id (resolve_all clock disk calls (register_batch run_id batch_id expected w))
      ≡ false
unfolding register_batch
register_batch-never_done clock disk run_id batch_id expected w calls h =
    (resolve_all-IsStuck clock disk batch_id calls _
      (h, register_batch-is_done run_id batch_id expected w)).1
