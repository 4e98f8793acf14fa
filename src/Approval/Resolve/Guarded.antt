-- ===== src/Approval/Resolve/Guarded.antt =====
-- Which decisions an approval can carry.
use ops_terminator.Base.{
  ℕ, true, false, List, [], ◌∷◌, Option, none, some, Result, ok, err, ◌≡◌, ◌≢◌, inl, inr, refl,
  arith, text_eq, ==_iff, Bool-cases, ◌∙◌,
}
use ops_terminator.Base.Text.{Text, bytes, one_of}
use ops_terminator.Models.{
  Approval, approval_decision_approve, approval_decision_reject, approval_decision_force_approve,
  policy_decision_deny,
}
use ops_terminator.Store.{Disk, StoreError, Table, write_file, get_object, save_object}
use ops_terminator.Store.Lookup.{AllFiles, AllFiles-write_file, save_object-eq-ok}
use ops_terminator.Approval.State.Frame.{approvals-mark_batch_if_complete, update_run-SameBatches}
use ops_terminator.Approval.State.{tick, now, World, ApprovalError, normalize_decision, is_decided}
use ops_terminator.Approval.Resolve.{
  resolved_run, record_override, after_list, after_save, decided, after_normalize, after_get,
  resolve,
}

-- The decision is one of the program's or none yet; an approval of what the policy denies is never
-- plainly approved, and only such an approval is force-approved.
pub record IsGuarded (a : Approval) : Type 0 where
  pub known :
      one_of a.decision (
        [] ∷ approval_decision_approve ∷ approval_decision_reject ∷ approval_decision_force_approve
        ∷ [])
      ≡ true
  pub not_approved :
      a.policy_decision ≡ policy_decision_deny → a.decision ≢ approval_decision_approve
  pub forced :
      a.decision ≡ approval_decision_force_approve → a.policy_decision ≡ policy_decision_deny

-- What `normalizeDecision` returns under each policy decision.
pub record IsNormal (policy_decision : Text) (d : Text) : Type 0 where
  pub known :
      one_of d (
        approval_decision_approve ∷ approval_decision_reject ∷ approval_decision_force_approve ∷ [])
      ≡ true
  pub not_approved : policy_decision ≡ policy_decision_deny → d ≢ approval_decision_approve
  pub forced : d ≡ approval_decision_force_approve → policy_decision ≡ policy_decision_deny

pub approve-ne-force : approval_decision_approve ≢ approval_decision_force_approve
unfolding bytes
approve-ne-force e = ground arith

pub approve-ne-reject : approval_decision_reject ≢ approval_decision_approve
unfolding bytes
approve-ne-reject e = ground arith

pub reject-ne-force : approval_decision_reject ≢ approval_decision_force_approve
unfolding bytes
reject-ne-force e = ground arith

pub normalize_decision-IsNormal :
    (decision policy_decision : Text) {d : Text}
    → normalize_decision decision policy_decision ≡ ok d
    → IsNormal policy_decision d
unfolding normalize_decision one_of
normalize_decision-IsNormal decision policy_decision {d} h = ground (
  arith,
  ==_iff policy_decision policy_decision_deny,
  approve-ne-force,
  approve-ne-reject,
  reject-ne-force,
  ==_iff d approval_decision_approve,
  ==_iff d approval_decision_reject,
  ==_iff d approval_decision_force_approve,
)

-- What `Resolve` did to the approvals: nothing, or it wrote a decision for an undecided one.
pub data Outcome (disk : Disk) (id : Text) (w w' : World) : Type 0 where
  unchanged : w'.approvals ≡ w.approvals → Outcome disk id w w'
  wrote :
      (a : Approval) (decision choice actor : Text) (at : ℕ)
      → get_object disk (bytes "approvals") id w.approvals ≡ ok (some a)
      → is_decided a ≡ false
      → normalize_decision choice a.policy_decision ≡ ok decision
      → w'.approvals ≡ write_file a.id (decided a decision actor at) w.approvals
      → Outcome disk id w w'

module _ (clock : ℕ → ℕ) (disk : Disk) where
  approvals-record_override :
      (a : Approval) (actor : Text) (at : ℕ) (w : World)
      → (record_override clock disk a actor at w).approvals ≡ w.approvals
  unfolding record_override
  approvals-record_override a actor at w = ground arith

  pub approvals-after_list :
      (a : Approval) (actor : Text) (at : ℕ) (w : World) (r : Result ApprovalError (List Approval))
      → (after_list clock disk a actor at w r).0.approvals ≡ w.approvals
  unfolding after_list
  approvals-after_list a actor at w (err e) = refl
  approvals-after_list a actor at w (ok all) =
      approvals-mark_batch_if_complete a.batch_id all _
      ∙ approvals-record_override a actor at _
      ∙ (update_run-SameBatches disk a.run_id (resolved_run a.batch_id all at) w).approvals

  after_save-Outcome :
      (id choice decision actor : Text) (a : Approval) (at : ℕ) (w : World)
      → get_object disk (bytes "approvals") id w.approvals ≡ ok (some a)
      → is_decided a ≡ false
      → normalize_decision choice a.policy_decision ≡ ok decision
      → (saved : Result StoreError (Table Approval))
      → save_object disk (bytes "approvals") a.id (decided a decision actor at) w.approvals ≡ saved
      → Outcome disk id w
          (after_save clock disk (decided a decision actor at) actor at (tick w) saved).0
  unfolding after_save
  after_save-Outcome id choice decision actor a at w g u n (err e) s = unchanged refl
  after_save-Outcome id choice decision actor a at w g u n (ok t) s =
      wrote a decision choice actor at g u n (
        approvals-after_list (decided a decision actor at) actor at _ _
        ∙ save_object-eq-ok disk _ a.id _ w.approvals s)

  pub resolve-Outcome :
      (id choice actor : Text) (w : World)
      → Outcome disk id w (resolve clock disk id choice actor w).0
  unfolding resolve
  resolve-Outcome id choice actor w =
      by_get (get_object disk (bytes "approvals") id w.approvals) refl
    where
      by_normal :
          (a : Approval)
          → get_object disk (bytes "approvals") id w.approvals ≡ ok (some a)
          → is_decided a ≡ false
          → (n : Result ApprovalError Text) → normalize_decision choice a.policy_decision ≡ n
          → Outcome disk id w (after_normalize clock disk a actor w n).0
      by_normal a g u (err e) n = unchanged refl
      by_normal a g u (ok d) n = after_save-Outcome id choice d actor a (now clock w) w g u n _ refl

      by_get :
          (g : Result StoreError (Option Approval))
          → get_object disk (bytes "approvals") id w.approvals ≡ g
          → Outcome disk id w (after_get clock disk id choice actor w g).0
      by_get (err e) g = unchanged refl
      by_get (ok none) g = unchanged refl
      by_get (ok (some a)) g = elim (Bool-cases (is_decided a)) [
        | inl e ↦ rw e (unchanged refl)
        | inr e ↦ rw e (by_normal a g e (normalize_decision choice a.policy_decision) refl)
      ]

decided-IsGuarded :
    (a : Approval) (d actor : Text) (at : ℕ)
    → IsNormal a.policy_decision d
    → IsGuarded (decided a d actor at)
unfolding one_of
decided-IsGuarded a d actor at n = record {
  known = ground (arith, n.known);
  not_approved = n.not_approved;
  forced = n.forced;
}

Outcome-IsGuarded :
    (disk : Disk) (id : Text) {w w' : World}
    → Outcome disk id w w'
    → AllFiles IsGuarded w.approvals
    → AllFiles IsGuarded w'.approvals
Outcome-IsGuarded disk id (unchanged e) h = rw e h
Outcome-IsGuarded disk id (wrote a d choice actor at g u n e) h = rw e (
    AllFiles-write_file IsGuarded a.id _ _
      (decided-IsGuarded a d actor at (normalize_decision-IsNormal choice a.policy_decision n)) h)

-- Every call of `Resolve`, whatever its outcome, keeps the stored approvals guarded: what the policy
-- denies is approved by a forced approval alone.
pub resolve-IsGuarded :
    (clock : ℕ → ℕ) (disk : Disk) (id choice actor : Text) (w : World)
    → AllFiles IsGuarded w.approvals
    → AllFiles IsGuarded (resolve clock disk id choice actor w).0.approvals
resolve-IsGuarded clock disk id choice actor w =
    Outcome-IsGuarded disk id (resolve-Outcome clock disk id choice actor w)
