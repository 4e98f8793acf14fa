-- ===== src/Approval/Resolve/Final.antt =====
-- A decision is final.
use ops_terminator.Base.{
  ℕ, Bool, true, false, List, [], ◌∷◌, Option, none, some, Result, ok, err, ◌≡◌, inl, inr, refl,
  sym, ap, ◌∙◌, text_eq, text_beq, ==-refl, ==_iff, ◌==◌, Bool-cases, subst, ok-injective,
}
use ops_terminator.Base.Text.{Text, bytes, one_of}
use ops_terminator.Models.{Approval}
use ops_terminator.Store.{Disk, StoreError, Table, lookup, write_file, get_object, save_object}
use ops_terminator.Store.Lookup.{
  lookup-write_file, get_object-eq-some, get_object_lem, save_object-eq-ok,
}
use ops_terminator.Approval.State.{
  now, tick, World, ApprovalError, normalize_decision, is_decided, is_approved_decision,
}
use ops_terminator.Approval.Resolve.{
  decided, after_list, after_save, after_normalize, after_get, resolve,
}
use ops_terminator.Approval.Resolve.Guarded.{
  IsNormal, normalize_decision-IsNormal, approvals-after_list, Outcome, unchanged, wrote,
  resolve-Outcome,
}
use ops_terminator.Approval.Resolve.LostWakeup.{resolve_all}
use mathlib.Core.Bool.{false≢true}
use mathlib.Core.Option.{some-injective}

-- Each stored value has the id of its file.
abbrev pub IsKeyed : World → Type 0
IsKeyed w = (id : Text) (a : Approval) → lookup id w.approvals ≡ some a → a.id ≡ id

IsNormal-is_decided :
    (p d : Text) (a : Approval) → IsNormal p d → a.decision ≡ d → is_decided a ≡ true
unfolding one_of bytes text_beq
IsNormal-is_decided p [] a n e = cc (n.known)
IsNormal-is_decided p (c ∷ d) a n e = rw e

module _ (clock : ℕ → ℕ) (disk : Disk) where
  -- A call on a decided approval returns what was decided and changes nothing.
  resolve-is_decided :
      (id choice actor : Text) (w : World) (a : Approval)
      → get_object disk (bytes "approvals") id w.approvals ≡ ok (some a)
      → is_decided a ≡ true
      → resolve clock disk id choice actor w ≡ (w, ok (a, is_approved_decision a.decision))
  unfolding resolve after_get
  resolve-is_decided id choice actor w a g e = rw (g, after_get) (rw e)

  -- The approval stands decided in the store, and the flag says whether it was approved.
  abbrev IsSettled : Text → World → Approval × Bool → Type 0
  IsSettled id w r =
      (get_object disk (bytes "approvals") id w.approvals ≡ ok (some r.0))
      × (is_decided r.0 ≡ true)
      × (r.1 ≡ is_approved_decision r.0.decision)

  after_list-IsSettled :
      (id actor : Text) (a : Approval) (at : ℕ) (w : World)
      (listed : Result ApprovalError (List Approval)) {r : Approval × Bool}
      → get_object disk (bytes "approvals") id w.approvals ≡ ok (some a)
      → is_decided a ≡ true
      → (after_list clock disk a actor at w listed).1 ≡ ok r
      → IsSettled id (after_list clock disk a actor at w listed).0 r
  unfolding after_list
  after_list-IsSettled id actor a at w (err e) g d h = cc
  after_list-IsSettled id actor a at w (ok all) g d h =
      subst (IsSettled id (after_list clock disk a actor at w (ok all)).0) (ok-injective h)
        (rw (approvals-after_list clock disk a actor at w (ok all)) g, d, refl)

  after_save-IsSettled :
      (id actor d : Text) (a : Approval) (at : ℕ) (w : World)
      (saved : Result StoreError (Table Approval)) {r : Approval × Bool}
      → a.id ≡ id
      → disk.readable (bytes "approvals") id ≡ true
      → is_decided (decided a d actor at) ≡ true
      → save_object disk (bytes "approvals") a.id (decided a d actor at) w.approvals ≡ saved
      → (after_save clock disk (decided a d actor at) actor at w saved).1 ≡ ok r
      → IsSettled id (after_save clock disk (decided a d actor at) actor at w saved).0 r
  unfolding after_save
  after_save-IsSettled id actor d a at w (err e) k readable n s h = cc
  after_save-IsSettled id actor d a at w (ok t) {r} k readable n s h =
      after_list-IsSettled id actor (decided a d actor at) at (record w { approvals = t }) _
        (get_object_lem disk (bytes "approvals") id t found readable) n h
    where
      found : lookup id t ≡ some (decided a d actor at)
      found =
          ap (lookup id) (save_object-eq-ok disk _ a.id _ w.approvals s)
          ∙ lookup-write_file a.id id (decided a d actor at) w.approvals
          ∙ rw (k, ==-refl id)

  resolve-IsSettled :
      (id choice actor : Text) (w : World) {r : Approval × Bool}
      → IsKeyed w
      → (resolve clock disk id choice actor w).1 ≡ ok r
      → IsSettled id (resolve clock disk id choice actor w).0 r
  unfolding resolve
  resolve-IsSettled id choice actor w {r} k =
      by_get (get_object disk (bytes "approvals") id w.approvals) refl
    where
      by_normal :
          (a : Approval)
          → get_object disk (bytes "approvals") id w.approvals ≡ ok (some a)
          → (n : Result ApprovalError Text) → normalize_decision choice a.policy_decision ≡ n
          → (after_normalize clock disk a actor w n).1 ≡ ok r
          → IsSettled id (after_normalize clock disk a actor w n).0 r
      by_normal a g (err e) n h = cc
      by_normal a g (ok d) n h =
          let (found, readable) = get_object-eq-some disk (bytes "approvals") id w.approvals g in
          after_save-IsSettled id actor d a (now clock w) (tick w) _ (k id a found) readable
            (IsNormal-is_decided a.policy_decision d (decided a d actor (now clock w))
              (normalize_decision-IsNormal choice a.policy_decision n) refl)
            refl h

      by_get :
          (g : Result StoreError (Option Approval))
          → get_object disk (bytes "approvals") id w.approvals ≡ g
          → (after_get clock disk id choice actor w g).1 ≡ ok r
          → IsSettled id (after_get clock disk id choice actor w g).0 r
      by_get (err e) g h = cc
      by_get (ok none) g h = cc
      by_get (ok (some a)) g h = elim (Bool-cases (is_decided a)) [
        | inl e ↦ rw e (subst (IsSettled id w) (ok-injective (rw e at h)) (g, e, refl))
        | inr e ↦
            rw e (by_normal a g (normalize_decision choice a.policy_decision) refl (rw e at h))
      ]

  IsKeyed-write_file :
      (id : Text) (v : Approval) (w w' : World)
      → v.id ≡ id
      → w'.approvals ≡ write_file id v w.approvals
      → IsKeyed w
      → IsKeyed w'
  IsKeyed-write_file id v w w' e h k j a f =
      let read = sym (ap (lookup j) h ∙ lookup-write_file id j v w.approvals) ∙ f in
      elim (Bool-cases (id == j)) [
        | inl same ↦
            ap (λ (x : Approval). x.id) (sym (some-injective v a (rw same at read)))
            ∙ e
            ∙ (==_iff id j).0 same
        | inr other ↦ k j a (rw other at read)
      ]

  Outcome-IsKeyed : (id : Text) (w w' : World) → Outcome disk id w w' → IsKeyed w → IsKeyed w'
  Outcome-IsKeyed id w w' (unchanged e) k = λ j a f. k j a (rw e at f)
  Outcome-IsKeyed id w w' (wrote a d choice actor at g u n e) k =
      IsKeyed-write_file a.id (decided a d actor at) w w' refl e k

  -- What a call keeps of an approval that is decided.
  abbrev IsKept : Text → Approval × Bool → World → Type 0
  IsKept id r w = IsKeyed w × IsSettled id w r

  Outcome-IsKept :
      (id id' : Text) (r : Approval × Bool) (w w' : World)
      → Outcome disk id' w w'
      → IsKept id r w
      → IsKept id r w'
  Outcome-IsKept id id' r w w' (unchanged e) (k, s) =
      (Outcome-IsKeyed id' w w' (unchanged e) k, rw e s)
  Outcome-IsKept id id' r w w' (wrote a d choice actor at g u n e) (k, s) =
      let (found, _) = get_object-eq-some disk (bytes "approvals") id' w.approvals g in
      let (settled, readable) = get_object-eq-some disk (bytes "approvals") id w.approvals s.0 in
      let key = k id' a found in
      let other : (a.id == id) ≡ false = elim (Bool-cases (a.id == id)) [
        | inl same ↦ absurd (
            false≢true (
              sym u
              ∙ ap is_decided (
                  some-injective a r.0 (
                    sym found
                    ∙ ap (λ j. lookup j w.approvals) (sym key ∙ (==_iff a.id id).0 same)
                    ∙ settled))
              ∙ s.1))
        | inr o ↦ o
      ] in
      (
        Outcome-IsKeyed id' w w' (wrote a d choice actor at g u n e) k,
        (
          get_object_lem disk (bytes "approvals") id _
              (ap (lookup id) e
                ∙ lookup-write_file a.id id (decided a d actor at) w.approvals
                ∙ rw other settled)
              readable,
          s.1,
          s.2,
        ),
      )

  resolve_all-IsKept :
      (id : Text) (r : Approval × Bool) (calls : List (Text × Text × Text)) (w : World)
      → IsKept id r w
      → IsKept id r (resolve_all clock disk calls w)
  resolve_all-IsKept id r [] w h = h
  resolve_all-IsKept id r ((id', choice, actor) ∷ calls) w h =
      resolve_all-IsKept id r calls _
        (Outcome-IsKept id id' r w _ (resolve-Outcome clock disk id' choice actor w) h)

  -- Where each file holds the approval with its id: once a call has returned a decided approval, and
  -- after any further calls of `Resolve`, for this and other approvals, a call for the same id
  -- returns that approval and that answer, whatever it asks for, and changes nothing.
  pub resolve-resolve :
      (id choice actor choice' actor' : Text) (calls : List (Text × Text × Text)) (w : World)
      {r : Approval × Bool}
      → IsKeyed w
      → (resolve clock disk id choice actor w).1 ≡ ok r
      → let w' = resolve_all clock disk calls (resolve clock disk id choice actor w).0 in
        resolve clock disk id choice' actor' w' ≡ (w', ok r)
  resolve-resolve id choice actor choice' actor' calls w {r} k h =
      let w' = resolve_all clock disk calls (resolve clock disk id choice actor w).0 in
      let (_, (g, d, f)) = resolve_all-IsKept id r calls _ (
        Outcome-IsKeyed id w _ (resolve-Outcome clock disk id choice actor w) k,
        resolve-IsSettled id choice actor w k h,
      ) in
      resolve-is_decided id choice' actor' w' r.0 g d ∙ ap (λ (b : Bool). (w', ok (r.0, b))) (sym f)
