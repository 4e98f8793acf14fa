-- ===== src/Approval/Resolve/Accepted.antt =====
-- Which texts `normalizeDecision` of internal/approval/manager.go accepts, and as what.
use ops_terminator.Base.{true, [], ◌∷◌, ok, ◌≡◌, ◌≢◌, ◌↔◌, ◌==◌, text_eq, ==_iff, arith}
use ops_terminator.Base.Text.{Text, one_of, trim_space, to_lower}
use ops_terminator.Models.{
  approval_decision_approve, approval_decision_reject, approval_decision_force_approve,
  policy_decision_deny,
}
use ops_terminator.Approval.State.{normalize_decision}
use ops_terminator.Approval.Resolve.Guarded.{
  IsNormal, normalize_decision-IsNormal, approve-ne-force, approve-ne-reject, reject-ne-force,
}

-- The text is a decision, no plain approval of what is denied, and a rejection where it is read as
-- one; and it is read as a decision for the policy.
pub record IsAccepted (decision policy_decision : Text) (d : Text) : Type 0 where
  pub asked :
      one_of (to_lower (trim_space decision)) (
        approval_decision_approve ∷ approval_decision_reject ∷ approval_decision_force_approve ∷ [])
      ≡ true
  pub not_plain :
      policy_decision ≡ policy_decision_deny
      → to_lower (trim_space decision) ≢ approval_decision_approve
  pub rejection :
      (d == approval_decision_reject) ≡ (to_lower (trim_space decision) == approval_decision_reject)
  pub normal : IsNormal policy_decision d

normalize_decision-IsAccepted :
    (decision policy_decision d : Text)
    → normalize_decision decision policy_decision ≡ ok d
    → IsAccepted decision policy_decision d
unfolding normalize_decision one_of
normalize_decision-IsAccepted decision policy_decision d h =
    let n = normalize_decision-IsNormal decision policy_decision h in
    let asked = to_lower (trim_space decision) in
    record {
      asked = ground (arith, ==_iff policy_decision policy_decision_deny);
      not_plain = λ p e. ground (arith, ==_iff asked approval_decision_approve);
      rejection = ground (
        arith,
        ==_iff asked approval_decision_approve,
        ==_iff asked approval_decision_reject,
        ==_iff asked approval_decision_force_approve,
        ==_iff d approval_decision_approve,
        ==_iff d approval_decision_reject,
        ==_iff d approval_decision_force_approve,
        approve-ne-reject,
        reject-ne-force,
      );
      normal = n;
    }

-- The text of a decision is accepted, and read as the decision `d`, exactly if the text, but for
-- blanks at its ends and its case, is one of the three decisions and not a plain approval of what the
-- policy denies, `d` is a rejection just where the text is one, and `d` is one of the three, plain
-- where the policy does not deny and forced where it does if it is an approval.
pub normalize_decision_iff :
    (decision policy_decision d : Text)
    → (normalize_decision decision policy_decision ≡ ok d) ↔ IsAccepted decision policy_decision d
unfolding normalize_decision one_of
normalize_decision_iff decision policy_decision d = (
  normalize_decision-IsAccepted decision policy_decision d,
  λ a.
      let asked = to_lower (trim_space decision) in
      let listed = a.asked in
      let not_plain = a.not_plain in
      let rejection = a.rejection in
      let known = a.normal.known in
      let not_approved = a.normal.not_approved in
      let forced = a.normal.forced in
      ground (
        arith,
        ==_iff policy_decision policy_decision_deny,
        ==_iff asked approval_decision_approve,
        ==_iff asked approval_decision_reject,
        ==_iff asked approval_decision_force_approve,
        ==_iff d approval_decision_approve,
        ==_iff d approval_decision_reject,
        ==_iff d approval_decision_force_approve,
        approve-ne-force,
        approve-ne-reject,
        reject-ne-force,
      ),
)
