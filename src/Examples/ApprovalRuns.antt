-- ===== src/Examples/ApprovalRuns.antt =====
-- Runs of internal/approval/manager.go.
use ops_terminator.Base.{
  ℕ, Bool, true, false, List, ◌↔◌, ◌∙◌, ◌==◌, text_eq, ==_iff, Bool-cases, inl, inr, [], ◌∷◌, none,
  ok, ◌≡◌, refl, ap, sym, text_beq,
}
use mathlib.Core.Option.{some-injective}
use ops_terminator.Base.Text.{Text, bytes, trim_space, to_lower, is_space, one_of}
use ops_terminator.Models.{Approval, policy_decision_deny}
use ops_terminator.Store.{Disk, lookup, write_file, save_object, get_object, list_objects}
use ops_terminator.Store.Lookup.{AllFiles}
use ops_terminator.Approval.State.{
  World, normalize_decision, is_approved_decision, is_done, list_batch_approvals,
}
use ops_terminator.Approval.Resolve.{resolve, decided}
use ops_terminator.Approval.Resolve.Guarded.{IsGuarded, resolve-IsGuarded}
use ops_terminator.Approval.Resolve.Accepted.{IsAccepted, normalize_decision_iff}
use ops_terminator.Approval.Resolve.Final.{IsKeyed, resolve-resolve}
use ops_terminator.Approval.Resolve.LostWakeup.{IsDecided, resolve_all, register_batch-never_done}
use ops_terminator.Approval.Wait.{register_batch}

-- A disk that refuses nothing, and a clock.
abbrev healthy : Disk
healthy = record { writable = λ d i. true; readable = λ d i. true; removable = λ d i. true }

abbrev clock : ℕ → ℕ
clock n = n

-- An approval of what the policy denies, as `WaitBatch` saves it.
abbrev asked : Text → Text → Approval
asked id decision = record {
  id = id;
  run_id = bytes "run_1";
  batch_id = bytes "batch_1";
  tool_call_id = bytes "call_1";
  batch_index = 0;
  tool_name = bytes "run_shell";
  rule_id = bytes "destructive_command_deny";
  rule_severity = bytes "critical";
  rule_category = bytes "filesystem";
  reason = [];
  scope = [];
  safer_alternative = [];
  requested_by = bytes "agent";
  policy_decision = policy_decision_deny;
  decision = decision;
  decision_source = [];
  resolved_by = [];
  created_at = 0;
  resolved_at = none;
}

abbrev world : Text → World
world decision = record {
  approvals = (bytes "a1", asked (bytes "a1") decision) ∷ [];
  runs = [];
  events = [];
  batches = [];
  readings = 1;
}

normalize_decision_iff_example :
    (normalize_decision (bytes " Force_Approve\n") policy_decision_deny
      ≡ ok (bytes "force_approve"))
    ↔ IsAccepted (bytes " Force_Approve\n") policy_decision_deny (bytes "force_approve")
normalize_decision_iff_example =
    normalize_decision_iff (bytes " Force_Approve\n") policy_decision_deny (bytes "force_approve")

world-IsGuarded : AllFiles IsGuarded (world []).approvals
unfolding bytes text_beq one_of
world-IsGuarded = (record { known = refl; not_approved = λ _ e. cc; forced = λ e. cc }, tt)

resolve-IsGuarded_example :
    AllFiles IsGuarded
      (resolve clock healthy
        (bytes "a1")
        (bytes "force_approve")
        (bytes "ops")
        (world [])).0.approvals
resolve-IsGuarded_example =
    resolve-IsGuarded clock healthy (bytes "a1") (bytes "force_approve") (bytes "ops") (world [])
      world-IsGuarded

-- Two approvals of one batch.
abbrev both : World
both = record (world []) {
  approvals = (bytes "a1", asked (bytes "a1") []) ∷ (bytes "a2", asked (bytes "a2") []) ∷ [];
}

world-IsKeyed : IsKeyed both
unfolding lookup bytes text_beq
world-IsKeyed id a e = elim (Bool-cases (bytes "a1" == id)) [
  | inl one ↦
      ap (λ (x : Approval). x.id) (sym (some-injective (asked (bytes "a1") []) a (rw one at e)))
      ∙ (==_iff (bytes "a1") id).0 one
  | inr other ↦ elim (Bool-cases (bytes "a2" == id)) [
    | inl two ↦
        ap (λ (x : Approval). x.id)
          (sym (some-injective (asked (bytes "a2") []) a (rw (other, two) at e)))
        ∙ (==_iff (bytes "a2") id).0 two
    | inr neither ↦ (let missing = rw (other, neither) at e in cc)
  ]
]

-- What the first call returns.
abbrev answer : Approval × Bool
answer = (decided (asked (bytes "a1") []) (bytes "force_approve") (bytes "ops") 1, true)

first_call :
    (resolve clock healthy (bytes "a1") (bytes "force_approve") (bytes "ops") both).1 ≡ ok answer
unfolding resolve get_object lookup save_object write_file normalize_decision list_batch_approvals
    list_objects is_approved_decision one_of trim_space is_space to_lower bytes text_beq
first_call = refl

-- Calls for the other approval and for the same one.
abbrev further_calls : List (Text × Text × Text)
further_calls =
    (bytes "a2", bytes "reject", bytes "dev") ∷ (bytes "a1", bytes "reject", bytes "dev") ∷ []

abbrev afterwards : World
afterwards =
    resolve_all clock healthy further_calls
      (resolve clock healthy (bytes "a1") (bytes "force_approve") (bytes "ops") both).0

resolve-resolve_example :
    resolve clock healthy (bytes "a1") (bytes "reject") (bytes "dev") afterwards
    ≡ (afterwards, ok answer)
resolve-resolve_example =
    resolve-resolve clock healthy (bytes "a1") (bytes "force_approve") (bytes "ops")
      (bytes "reject") (bytes "dev") further_calls both world-IsKeyed first_call

world-IsDecided : IsDecided (bytes "batch_1") (world (bytes "reject"))
unfolding bytes text_beq
world-IsDecided = ((λ _. refl), tt)

register_batch-never_done_example :
    is_done (bytes "batch_1") (
      resolve_all clock healthy
        ((bytes "a1", bytes "reject", bytes "ops") ∷ [])
        (register_batch (bytes "run_1") (bytes "batch_1") 1 (world (bytes "reject"))))
    ≡ false
register_batch-never_done_example =
    register_batch-never_done clock healthy (bytes "run_1") (bytes "batch_1") 1
      (world (bytes "reject")) ((bytes "a1", bytes "reject", bytes "ops") ∷ []) world-IsDecided
