-- ===== src/Builtin/Registry/Named.antt =====
-- The names and the kinds of the previews, and the rules that the policy takes for them.
use ops_terminator.Base.{
  Bool, true, false, not, List, [], ◌∷◌, Option, none, some, Result, ok, err, ◌≡◌, refl, ap, ◌∙◌,
  subst, inl, inr, Bool-cases, ◌>>=◌, ◌==◌, ==_iff, text_eq, All, if◌then◌else◌, ok-injective,
  text_beq,
}
use mathlib.Core.Option.{some-injective}
use ops_terminator.Base.Text.{Text, bytes, one_of}
use ops_terminator.Models.{ActionPreview, PolicyRule, PolicyRuleConfig}
use ops_terminator.Policy.Engine.{
  Engine, configured, new_policy_rule, check, check_run_shell, read_only_builtin_rule,
  mutating_builtin_rule,
}
use ops_terminator.Builtin.Tools.{
  Decoder, Tool, preview, preview_mutating, preview_static, preview_read_only_command,
  preview_parameterized_read, preview_process_search, preview_service_status,
  preview_file_log_search, preview_directory_usage, preview_journal_log_search,
  preview_package_manager_inspect, preview_user_inspect, preview_delete_user, preview_shell,
  validate_shell_command, arguments_of, required, string_arg,
}
use ops_terminator.Builtin.Registry.{registry_tools, find_tool, preview_found, preview_call}

-- The tools that may change a host.
unfoldable pub changes_host : Text → Bool
changes_host name =
    one_of name
      (bytes "create_user" ∷ bytes "delete_user" ∷ bytes "restart_service" ∷ bytes "run_shell" ∷ [])

-- A preview with a name and a kind.
record IsNamed (name : Text) (read_only : Bool) (p : ActionPreview) : Type 0 where
  named : p.tool_name ≡ name
  kind : p.read_only ≡ read_only

-- All that a tool previews has its name and kind.
PreviewsAs : Decoder → Text × Tool → Type 0
PreviewsAs json (name, tool) =
    (arguments : Text)
    → (p : ActionPreview) → preview json tool arguments ≡ ok p
    → IsNamed name (not (changes_host name)) p

bind-IsNamed :
    {A : Type 0} (name : Text) (b : Bool) (r : Result Text A) (f : A → ActionPreview)
    {p : ActionPreview}
    → ((a : A) → IsNamed name b (f a))
    → (r >>= λ a. ok (f a)) ≡ ok p
    → IsNamed name b p
bind-IsNamed name b (ok a) f k h = subst (IsNamed name b) (ok-injective h) (k a)
bind-IsNamed name b (err e) f k h = cc

fixed-IsNamed :
    (name : Text) (b : Bool) (q : ActionPreview) {p : ActionPreview}
    → IsNamed name b q
    → ◌≡◌ {A = Result Text ActionPreview} (ok q) (ok p)
    → IsNamed name b p
fixed-IsNamed name b q k h = subst (IsNamed name b) (ok-injective h) k

bind_bind-IsNamed :
    {A B : Type 0} (name : Text) (b : Bool) (r : Result Text A) (s : A → Result Text B)
    (f : A → B → ActionPreview) {p : ActionPreview}
    → ((x : A) → (y : B) → IsNamed name b (f x y))
    → (r >>= λ x. s x >>= λ y. ok (f x y)) ≡ ok p
    → IsNamed name b p
bind_bind-IsNamed name b (ok x) s f k h = bind-IsNamed name b (s x) (f x) (k x) h
bind_bind-IsNamed name b (err e) s f k h = cc

registry_tools-PreviewsAs : (json : Decoder) → All (PreviewsAs json) registry_tools
unfolding registry_tools PreviewsAs preview preview_mutating preview_static
    preview_read_only_command preview_parameterized_read preview_process_search
    preview_service_status preview_file_log_search preview_directory_usage
    preview_journal_log_search preview_package_manager_inspect preview_user_inspect
    preview_delete_user preview_shell changes_host one_of bytes text_beq
registry_tools-PreviewsAs json = (
  (λ a p h. fixed-IsNamed _ _ _ (record { named = refl; kind = refl }) h),
  (
    (λ a p h. fixed-IsNamed _ _ _ (record { named = refl; kind = refl }) h),
    (
      (λ a p h. fixed-IsNamed _ _ _ (record { named = refl; kind = refl }) h),
      (
        (λ a p h. fixed-IsNamed _ _ _ (record { named = refl; kind = refl }) h),
        (
          (λ a p h. fixed-IsNamed _ _ _ (record { named = refl; kind = refl }) h),
          (
            (λ a p h. bind-IsNamed _ _ _ _ (λ x. record { named = refl; kind = refl }) h),
            (
              (λ a p h. bind-IsNamed _ _ _ _ (λ x. record { named = refl; kind = refl }) h),
              (
                (λ a p h. bind-IsNamed _ _ _ _ (λ x. record { named = refl; kind = refl }) h),
                (
                  (λ a p h. bind-IsNamed _ _ _ _ (λ x. record { named = refl; kind = refl }) h),
                  (
                    (λ a p h.
                        bind_bind-IsNamed _ _
                          (json.string_and_int (arguments_of a) (bytes "service") (bytes "lines"))
                          (λ x. required (bytes "service") x.0) _
                          (λ x y. record { named = refl; kind = refl }) h),
                    (
                      (λ a p h. fixed-IsNamed _ _ _ (record { named = refl; kind = refl }) h),
                      (
                        (λ a p h.
                            bind-IsNamed _ _ _ _ (λ x. record { named = refl; kind = refl }) h),
                        (
                          (λ a p h.
                              bind-IsNamed _ _ _ _ (λ x. record { named = refl; kind = refl }) h),
                          (
                            (λ a p h.
                                bind-IsNamed _ _ _ _ (λ x. record { named = refl; kind = refl }) h),
                            (
                              (λ a p h.
                                  bind-IsNamed _ _ _ _ (λ x. record { named = refl; kind = refl })
                                    h),
                              (
                                (λ a p h.
                                    bind_bind-IsNamed _ _ (string_arg json a (bytes "command"))
                                      validate_shell_command _
                                      (λ x y. record { named = refl; kind = refl }) h),
                                tt,
                              ),
                            ),
                          ),
                        ),
                      ),
                    ),
                  ),
                ),
              ),
            ),
          ),
        ),
      ),
    ),
  ),
)

find_tool-PreviewsAs :
    (json : Decoder) (name : Text) (tools : List (Text × Tool)) {tool : Tool}
    → All (PreviewsAs json) tools
    → find_tool name tools ≡ some tool
    → PreviewsAs json (name, tool)
unfolding find_tool
find_tool-PreviewsAs json name [] h e = cc
find_tool-PreviewsAs json name ((n, t) ∷ tools) {tool = tool} h e = elim (Bool-cases (n == name)) [
  | inl same ↦
      subst (λ x. PreviewsAs json (x, tool)) ((==_iff n name).0 same)
        (subst (λ x. PreviewsAs json (n, x)) (some-injective t tool (rw same at e)) h.0)
  | inr other ↦ find_tool-PreviewsAs json name tools h.1 (rw other at e)
]

preview_found-IsNamed :
    (json : Decoder) (name arguments : Text) (o : Option Tool) {p : ActionPreview}
    → find_tool name registry_tools ≡ o
    → preview_found json name arguments o ≡ ok p
    → IsNamed name (not (changes_host name)) p
unfolding preview_found PreviewsAs
preview_found-IsNamed json name arguments none e h = cc
preview_found-IsNamed json name arguments (some tool) {p = p} e h =
    find_tool-PreviewsAs json name registry_tools (registry_tools-PreviewsAs json) e arguments p h

-- The rule for a builtin tool.
pub rule_of : Text → Text
rule_of name =
    if changes_host name then bytes "mutating_builtin_ask" else bytes "readonly_builtin_allow"

configured-rule_id :
    (o : Option PolicyRuleConfig) (rule : PolicyRule) → (configured o rule).rule_id ≡ rule.rule_id
unfolding configured
configured-rule_id none rule = refl
configured-rule_id (some config) rule = refl

new_policy_rule-either :
    (e : Engine) (b : Bool) (x y : PolicyRule)
    → (if b then new_policy_rule e x else new_policy_rule e y).rule_id
      ≡ (if b then x.rule_id else y.rule_id)
unfolding new_policy_rule
new_policy_rule-either e true x y = configured-rule_id _ x
new_policy_rule-either e false x y = configured-rule_id _ y

not_chosen : {A : Type 0} (b : Bool) (x y : A) → b ≡ false → (if b then x else y) ≡ y
not_chosen true x y h = cc
not_chosen false x y h = refl

check-rule_id :
    (e : Engine) (p : ActionPreview)
    → (p.tool_name == bytes "run_shell") ≡ false
    → (check e p).rule_id
      ≡ (if p.read_only then bytes "readonly_builtin_allow" else bytes "mutating_builtin_ask")
unfolding check
check-rule_id e p other =
    ap (λ (r : PolicyRule). r.rule_id)
      (not_chosen (p.tool_name == bytes "run_shell") (check_run_shell e p)
        (if p.read_only
          then new_policy_rule e (read_only_builtin_rule p.tool_name)
          else new_policy_rule e (mutating_builtin_rule p))
        other)
    ∙ new_policy_rule-either e p.read_only (read_only_builtin_rule p.tool_name)
        (mutating_builtin_rule p)

exchanged : (b : Bool) (x y : Text) → (if not b then x else y) ≡ (if b then y else x)
exchanged true x y = refl
exchanged false x y = refl

-- Whatever its arguments, a preview of a tool but `run_shell` is graded by the rule for tools that change
-- a host if it creates or deletes a user or restarts a service, and by the rule for read-only tools else.
pub check-preview_call :
    (e : Engine) (json : Decoder) (name arguments : Text) {p : ActionPreview}
    → preview_call json name arguments ≡ ok p
    → (name == bytes "run_shell") ≡ false
    → (check e p).rule_id ≡ rule_of name
unfolding preview_call rule_of
check-preview_call e json name arguments {p = p} h other =
    let k = preview_found-IsNamed json name arguments (find_tool name registry_tools) refl h in
    check-rule_id e p (ap (λ n. n == bytes "run_shell") k.named ∙ other)
    ∙ (ap (λ b. if b then bytes "readonly_builtin_allow" else bytes "mutating_builtin_ask") k.kind
        ∙ exchanged (changes_host name) (bytes "readonly_builtin_allow")
            (bytes "mutating_builtin_ask"))
