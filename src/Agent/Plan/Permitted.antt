-- ===== src/Agent/Plan/Permitted.antt =====
-- Which tool calls run.
use ops_terminator.Base.{
  Bool, true, false, List, [], ◌∷◌, Option, none, some, Result, ok, err, ◌≡◌, ◌⊎◌, inl, inr, refl,
  sym, ap, ◌∙◌, arith, subst, ◌==◌, text_eq, ==_iff, Bool-cases, if◌then◌else◌, or_else, All,
}
use mathlib.Core.Option.{some-injective}
use ops_terminator.Base.Text.{Text}
use ops_terminator.Models.{
  ActionPreview, PolicyRule, Approval, ToolCall, policy_decision_allow, policy_decision_ask,
  approval_decision_approve, approval_decision_force_approve,
}
use ops_terminator.Policy.Engine.{Engine, check}
use ops_terminator.Agent.Plan.{
  Plan, plan_checked, plan_previewed, plan_calls, approval_for, decide_found, decide_plan,
  decide_plans,
}

-- An approval that lets a call run, for the call's id.
abbrev pub Approves : Approval → ToolCall → Type 0
Approves a call =
    (a.tool_call_id ≡ call.id)
    × ((a.decision ≡ approval_decision_approve) ⊎ (a.decision ≡ approval_decision_force_approve))

-- The engine allows the call, or asks while approvals are bypassed.
abbrev pub IsFree : (ToolCall → Result Text ActionPreview) → Engine → Bool → ToolCall → Type 0
IsFree preview engine bypass call =
    (p : ActionPreview) × (preview call ≡ ok p)
    × (((check engine p).decision ≡ policy_decision_allow)
        ⊎ (((check engine p).decision ≡ policy_decision_ask) × (bypass ≡ true)))

-- A plan that does not run, or whose call is free or has an approval among those given.
abbrev pub IsPermitted :
    (ToolCall → Result Text ActionPreview) → Engine → Bool → List Approval → Plan → Type 0
IsPermitted preview engine bypass approvals plan =
    (plan.execute ≡ false)
    ⊎ (IsFree preview engine bypass plan.call
        ⊎ ((a : Approval) × (approval_for plan.call.id approvals ≡ some a) × Approves a plan.call))

plan_checked-execute :
    (bypass : Bool) (call : ToolCall) (p : ActionPreview) (rule : PolicyRule)
    → (plan_checked bypass call p rule).0.execute ≡ true
    → (rule.decision ≡ policy_decision_allow)
      ⊎ ((rule.decision ≡ policy_decision_ask) × (bypass ≡ true))
unfolding plan_checked
plan_checked-execute bypass call p rule h =
    ground
      (arith, ==_iff rule.decision policy_decision_allow, ==_iff rule.decision policy_decision_ask)

plan_checked-call :
    (bypass : Bool) (call : ToolCall) (p : ActionPreview) (rule : PolicyRule)
    → (plan_checked bypass call p rule).0.call ≡ call
unfolding plan_checked
plan_checked-call bypass call p rule = ground arith

IsFree-of_rule :
    (preview : ToolCall → Result Text ActionPreview) (engine : Engine) (bypass : Bool)
    (call : ToolCall) (p : ActionPreview)
    → preview call ≡ ok p
    → ((check engine p).decision ≡ policy_decision_allow)
      ⊎ (((check engine p).decision ≡ policy_decision_ask) × (bypass ≡ true))
    → IsFree preview engine bypass call
IsFree-of_rule preview engine bypass call p e h = (p, e, h)

-- A call is planned to run only if it is free.
plan_previewed-execute :
    (preview : ToolCall → Result Text ActionPreview) (engine : Engine) (bypass : Bool)
    (call : ToolCall) (r : Result Text ActionPreview)
    → preview call ≡ r
    → ((plan_previewed engine bypass call r).0.execute ≡ false) ⊎ IsFree preview engine bypass call
unfolding plan_previewed
plan_previewed-execute preview engine bypass call (err why) e = inl refl
plan_previewed-execute preview engine bypass call (ok p) e =
    elim (Bool-cases (plan_checked bypass call p (check engine p)).0.execute) [
      | inl t ↦ inr (
          IsFree-of_rule preview engine bypass call p e
            (plan_checked-execute bypass call p (check engine p) t))
      | inr f ↦ inl f
    ]

pub plan_previewed-call :
    (engine : Engine) (bypass : Bool) (call : ToolCall) (r : Result Text ActionPreview)
    → (plan_previewed engine bypass call r).0.call ≡ call
unfolding plan_previewed
plan_previewed-call engine bypass call (err why) = refl
plan_previewed-call engine bypass call (ok p) = plan_checked-call bypass call p (check engine p)

-- What is planned before the decisions.
abbrev IsPlanned : (ToolCall → Result Text ActionPreview) → Engine → Bool → Plan → Type 0
IsPlanned preview engine bypass plan =
    (plan.execute ≡ false) ⊎ IsFree preview engine bypass plan.call

plan_previewed-IsPlanned :
    (preview : ToolCall → Result Text ActionPreview) (engine : Engine) (bypass : Bool)
    (call : ToolCall)
    → IsPlanned preview engine bypass (plan_previewed engine bypass call (preview call)).0
plan_previewed-IsPlanned preview engine bypass call =
    elim (plan_previewed-execute preview engine bypass call (preview call) refl) [
      | inl f ↦ inl f
      | inr free ↦ inr (
          subst (IsFree preview engine bypass)
            (sym (plan_previewed-call engine bypass call (preview call))) free)
    ]

plan_calls-IsPlanned :
    (preview : ToolCall → Result Text ActionPreview) (engine : Engine) (bypass : Bool)
    (calls : List ToolCall)
    → All (IsPlanned preview engine bypass) (plan_calls preview engine bypass calls).0
unfolding plan_calls
plan_calls-IsPlanned preview engine bypass [] = tt
plan_calls-IsPlanned preview engine bypass (call ∷ calls) = (
  plan_previewed-IsPlanned preview engine bypass call,
  plan_calls-IsPlanned preview engine bypass calls,
)

picked-id :
    (id : Text) (b a : Approval) (t : Bool)
    → ((b.tool_call_id == id) ≡ t)
    → ◌≡◌ {A = Option Approval} (if t then some b else none) (some a)
    → a.tool_call_id ≡ id
picked-id id b a true e h =
    ap (λ (x : Approval). x.tool_call_id) (sym (some-injective b a h))
    ∙ (==_iff b.tool_call_id id).0 e
picked-id id b a false e h = cc

or_else-id :
    (id : Text) (o : Option Approval) (b a : Approval)
    → ((c : Approval) → o ≡ some c → c.tool_call_id ≡ id)
    → or_else o (if b.tool_call_id == id then some b else none) ≡ some a
    → a.tool_call_id ≡ id
or_else-id id none b a found h = picked-id id b a (b.tool_call_id == id) refl h
or_else-id id (some c) b a found h = found a h

-- The approval that is found is one for the id.
approval_for-id :
    (id : Text) (approvals : List Approval) (a : Approval)
    → approval_for id approvals ≡ some a
    → a.tool_call_id ≡ id
unfolding approval_for
approval_for-id id [] a h = cc
approval_for-id id (b ∷ approvals) a h =
    or_else-id id (approval_for id approvals) b a (approval_for-id id approvals) h

decide_found-execute :
    (a : Approval) (plan : Plan)
    → plan.execute ≡ false
    → (decide_found (some a) plan).execute ≡ true
    → (a.decision ≡ approval_decision_approve) ⊎ (a.decision ≡ approval_decision_force_approve)
unfolding decide_found
decide_found-execute a plan f h = ground (
  arith,
  ==_iff a.decision approval_decision_approve,
  ==_iff a.decision approval_decision_force_approve,
)

decide_found-call : (o : Option Approval) (plan : Plan) → (decide_found o plan).call ≡ plan.call
unfolding decide_found
decide_found-call none plan = refl
decide_found-call (some a) plan = ground arith

-- A decision over a plan that no rule lets run.
decide_found-IsPermitted :
    (preview : ToolCall → Result Text ActionPreview) (engine : Engine) (bypass : Bool)
    (approvals : List Approval) (plan : Plan) (o : Option Approval)
    → approval_for plan.call.id approvals ≡ o
    → IsPlanned preview engine bypass plan
    → ((decide_found o plan).execute ≡ false)
      ⊎ (IsFree preview engine bypass plan.call
          ⊎ ((a : Approval) × (approval_for plan.call.id approvals ≡ some a)
              × Approves a plan.call))
unfolding decide_found
decide_found-IsPermitted preview engine bypass approvals plan o e (inr free) = inr (inl free)
decide_found-IsPermitted preview engine bypass approvals plan none e (inl f) = inl f
decide_found-IsPermitted preview engine bypass approvals plan (some a) e (inl f) =
    elim (Bool-cases (decide_found (some a) plan).execute) [
      | inl t ↦ inr (
          inr (a, e, (approval_for-id plan.call.id approvals a e, decide_found-execute a plan f t)))
      | inr n ↦ inl n
    ]

decide_plan-IsPermitted :
    (preview : ToolCall → Result Text ActionPreview) (engine : Engine) (bypass : Bool)
    (approvals : List Approval) (plan : Plan)
    → IsPlanned preview engine bypass plan
    → IsPermitted preview engine bypass approvals (decide_plan approvals plan)
unfolding decide_plan
decide_plan-IsPermitted preview engine bypass approvals plan h =
    let o = approval_for plan.call.id approvals in
    subst
      (λ call.
        ((decide_found o plan).execute ≡ false)
        ⊎ (IsFree preview engine bypass call
            ⊎ ((a : Approval) × (approval_for call.id approvals ≡ some a) × Approves a call)))
      (sym (decide_found-call o plan))
      (decide_found-IsPermitted preview engine bypass approvals plan o refl h)

decide_plans-All :
    (P Q : Plan → Type 0) (approvals : List Approval) (plans : List Plan)
    → ((plan : Plan) → P plan → Q (decide_plan approvals plan))
    → All P plans
    → All Q (decide_plans approvals plans)
unfolding decide_plans
decide_plans-All P Q approvals [] f h = tt
decide_plans-All P Q approvals (plan ∷ plans) f h =
    (f plan h.0, decide_plans-All P Q approvals plans f h.1)

-- Once the approvals are put over the plans of the calls, each plan either does not run, or is for a
-- call that previews to an action which the engine allows (or asks about, while approvals are
-- bypassed), or has as its approval one for the id of its call, decided "approve" or "force_approve".
pub decide_plans-IsPermitted :
    (preview : ToolCall → Result Text ActionPreview) (engine : Engine) (bypass : Bool)
    (approvals : List Approval) (calls : List ToolCall)
    → All
        (IsPermitted preview engine bypass approvals)
        (decide_plans approvals (plan_calls preview engine bypass calls).0)
decide_plans-IsPermitted preview engine bypass approvals calls =
    decide_plans-All (IsPlanned preview engine bypass) (IsPermitted preview engine bypass approvals)
      approvals (plan_calls preview engine bypass calls).0
      (decide_plan-IsPermitted preview engine bypass approvals)
      (plan_calls-IsPlanned preview engine bypass calls)
