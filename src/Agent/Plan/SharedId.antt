-- ===== src/Agent/Plan/SharedId.antt =====
-- Two calls of one response with the same id, in `Runtime.Execute` of internal/agent/runtime.go.
use ops_terminator.Base.{
  Bool, true, false, List, [], ◌∷◌, some, Result, ok, ◌≡◌, refl, sym, ap, ap₂, ◌∙◌, map, text_beq,
  arith, text_eq, ==_iff,
}
use ops_terminator.Base.Text.{Text, bytes}
use ops_terminator.Models.{
  ActionPreview, PolicyRule, Approval, ToolCall, policy_decision_deny, approval_decision_approve,
  approval_decision_reject,
}
use ops_terminator.Policy.Engine.{Engine, check}
use ops_terminator.Agent.Plan.{
  Plan, plan_checked, plan_previewed, plan_calls, approval_for, decide_found, decide_plan,
  decide_plans,
}
use ops_terminator.Agent.Plan.Permitted.{plan_previewed-call}

decide_found-approve :
    (a : Approval) (plan : Plan)
    → a.decision ≡ approval_decision_approve
    → (decide_found (some a) plan).execute ≡ true
unfolding decide_found
decide_found-approve a plan h = ground (arith, ==_iff a.decision approval_decision_approve)

approval_for-last :
    (id : Text) (r a : Approval) → a.tool_call_id ≡ id → approval_for id (r ∷ a ∷ []) ≡ some a
unfolding approval_for
approval_for-last id r a e = rw ((==_iff a.tool_call_id id).1 e) refl

approval_for-only :
    (id : Text) (r : Approval) → r.tool_call_id ≡ id → approval_for id (r ∷ []) ≡ some r
unfolding approval_for
approval_for-only id r e = rw ((==_iff r.tool_call_id id).1 e) refl

decide_plan-approve :
    (approvals : List Approval) (plan : Plan) (a : Approval)
    → approval_for plan.call.id approvals ≡ some a
    → a.decision ≡ approval_decision_approve
    → (decide_plan approvals plan).execute ≡ true
unfolding decide_plan
decide_plan-approve approvals plan a e h = rw e (decide_found-approve a plan h)

decide_plan-reject :
    (approvals : List Approval) (plan : Plan) (r : Approval)
    → approval_for plan.call.id approvals ≡ some r
    → r.decision ≡ approval_decision_reject
    → plan.execute ≡ false
    → (decide_plan approvals plan).execute ≡ false
unfolding decide_plan decide_found bytes text_beq
decide_plan-reject approvals plan r e h f = rw (e, h) f

plan_checked-deny :
    (bypass : Bool) (call : ToolCall) (p : ActionPreview) (rule : PolicyRule)
    → rule.decision ≡ policy_decision_deny
    → (plan_checked bypass call p rule).0.execute ≡ false
unfolding plan_checked bytes text_beq
plan_checked-deny bypass call p rule h = rw h refl

module _ (preview : ToolCall → Result Text ActionPreview) (engine : Engine) (bypass : Bool) where
  -- Which of the calls run under the approvals.
  unfoldable pub executed : List Approval → List ToolCall → List Bool
  executed approvals calls =
      map (λ (plan : Plan). plan.execute)
        (decide_plans approvals (plan_calls preview engine bypass calls).0)

  -- Two calls of one response have the same id, the policy denies the first, and its approval is
  -- rejected, while that of the second, a plain one, is approved. By its own approval the first call
  -- does not run; in the batch of the two, both calls run.
  pub decide_plans-shared_id :
      (first second : ToolCall) (p : ActionPreview) (r a : Approval)
      → preview first ≡ ok p
      → (check engine p).decision ≡ policy_decision_deny
      → second.id ≡ first.id
      → r.tool_call_id ≡ first.id
      → r.decision ≡ approval_decision_reject
      → a.tool_call_id ≡ second.id
      → a.decision ≡ approval_decision_approve
      → (executed (r ∷ []) (first ∷ []) ≡ false ∷ [])
        × (executed (r ∷ a ∷ []) (first ∷ second ∷ []) ≡ true ∷ true ∷ [])
  unfolding executed decide_plans plan_calls
  decide_plans-shared_id first second p r a previewed denied shared for_first rejected for_second
        approved =
      let plan = (plan_previewed engine bypass first (preview first)).0 in
      let next = (plan_previewed engine bypass second (preview second)).0 in
      let first_id : plan.call.id ≡ first.id =
        ap (λ (c : ToolCall). c.id) (plan_previewed-call engine bypass first (preview first)) in
      let next_id : next.call.id ≡ second.id =
        ap (λ (c : ToolCall). c.id) (plan_previewed-call engine bypass second (preview second)) in
      let waits : plan.execute ≡ false =
        rw previewed
          (unfold plan_previewed in plan_checked-deny bypass first p (check engine p) denied) in
      (
        ap (λ (b : Bool). b ∷ [])
            (decide_plan-reject (r ∷ []) plan r
              (approval_for-only plan.call.id r (for_first ∙ sym first_id)) rejected waits),
        ap₂ (λ (b c : Bool). b ∷ c ∷ [])
            (decide_plan-approve (r ∷ a ∷ []) plan a
              (approval_for-last plan.call.id r a (for_second ∙ shared ∙ sym first_id)) approved)
            (decide_plan-approve (r ∷ a ∷ []) next a
              (approval_for-last next.call.id r a (for_second ∙ sym next_id)) approved),
      )
