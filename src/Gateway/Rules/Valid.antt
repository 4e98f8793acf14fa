-- ===== src/Gateway/Rules/Valid.antt =====
-- What a rule that was saved satisfies.
use ops_terminator.Base.{
  ℕ, Bool, true, false, not, [], Option, none, some, ok, ◌≡◌, refl, sym, ap, ◌∙◌, subst, Bool-cases,
  inl, inr, ◌==◌, text_eq, if◌then◌else◌,
}
use ops_terminator.Base.Int.{ℤ, pos, is_positive}
use ops_terminator.Base.Text.{Text}
use ops_terminator.Models.Automations.{AutomationRule, trigger_type_threshold}
use ops_terminator.Store.{Disk, lookup}
use ops_terminator.Gateway.Metrics.{automation_metric_command, is_supported_automation_operator}
use ops_terminator.Gateway.Service.{World, GatewayError}
use ops_terminator.Gateway.Service.Frame.{
  after_both, return-eq-ok, save_automation-eq-ok, passed_check, passed_not,
}
use ops_terminator.Gateway.Rules.{
  trim_rule, check_rule, checked, fill_rule, keep_history, save_trimmed, save_automation_rule,
}

-- A rule that the automation loop can sample, compare and hold back.
pub record IsUsableRule (rule : AutomationRule) : Type 0 where
  pub named : (rule.name == []) ≡ false
  pub hosted : (rule.host_id == []) ≡ false
  pub trigger : (rule.trigger_type == trigger_type_threshold) ≡ true
  pub command : Text
  pub metric : automation_metric_command rule.metric ≡ some command
  pub operator : is_supported_automation_operator rule.operator ≡ true
  pub window : is_positive rule.window_minutes ≡ true
  pub cooldown : is_positive rule.cooldown_minutes ≡ true

positive-or : (n d : ℤ) → is_positive d ≡ true → is_positive (if is_positive n then n else d) ≡ true
positive-or n d h = elim (Bool-cases (is_positive n)) [ inl p ↦ rw p p | inr q ↦ rw q h ]

passed_metric :
    (x y : GatewayError) (o : Option Text) (b : Bool)
    → elim o [ none ↦ some x | some _ ↦ if not b then some y else none ] ≡ none
    → (command : Text) × (o ≡ some command) × (b ≡ true)
passed_metric x y none b h = cc
passed_metric x y (some command) true h = (command, refl, refl)
passed_metric x y (some command) false h = cc

-- The rule that is saved, where the checks found nothing.
kept-IsUsableRule :
    (r : AutomationRule) (at : ℕ) (old : Option AutomationRule)
    → IsUsableRule (fill_rule r)
    → IsUsableRule (keep_history at old (fill_rule r))
unfolding keep_history
kept-IsUsableRule r at none h = record {
  named = h.named;
  hosted = h.hosted;
  trigger = h.trigger;
  command = h.command;
  metric = h.metric;
  operator = h.operator;
  window = h.window;
  cooldown = h.cooldown;
}
kept-IsUsableRule r at (some current) h = record {
  named = h.named;
  hosted = h.hosted;
  trigger = h.trigger;
  command = h.command;
  metric = h.metric;
  operator = h.operator;
  window = h.window;
  cooldown = h.cooldown;
}

fill_rule-IsUsableRule : (r : AutomationRule) → check_rule r ≡ none → IsUsableRule (fill_rule r)
unfolding check_rule fill_rule
fill_rule-IsUsableRule r h =
    let (named, h1) = passed_check _ _ (r.name == []) h in
    let (hosted, h2) = passed_check _ _ (r.host_id == []) h1 in
    let (measured, h3) = passed_check _ _ (r.metric == []) h2 in
    let (compared, h4) = passed_check _ _ (r.operator == []) h3 in
    let (trigger, h5) = passed_check _ _ (not (r.trigger_type == trigger_type_threshold)) h4 in
    let (command, metric, operator) =
      passed_metric _ _ (automation_metric_command r.metric)
        (is_supported_automation_operator r.operator) h5 in
    record {
      named = named;
      hosted = hosted;
      trigger = passed_not (r.trigger_type == trigger_type_threshold) trigger;
      command = command;
      metric = metric;
      operator = operator;
      window = positive-or r.window_minutes (pos 5) refl;
      cooldown = positive-or r.cooldown_minutes (pos 15) refl;
    }

checked-eq-ok :
    (o : Option GatewayError) (w : World) {w' : World} {u : Unit {0}}
    → checked o w ≡ (w', ok u)
    → o ≡ none
checked-eq-ok none w h = refl
checked-eq-ok (some e) w h = cc

module _ (clock : ℕ → ℕ) (disk : Disk) where
  save_trimmed-IsUsableRule :
      (trimmed : AutomationRule) (w : World) {w' : World} {r : AutomationRule}
      → save_trimmed clock disk trimmed w ≡ (w', ok r)
      → IsUsableRule r × (lookup r.id w'.automations ≡ some r)
  unfolding save_trimmed
  save_trimmed-IsUsableRule trimmed w {w' = w'} {r = r} h = after_both _ _ _ h (λ w1 rule s1 h1.
      after_both _ _ _ h1 (λ w2 _ s2 h2. after_both _ _ _ h2 (λ w3 host s3 h3.
        after_both _ _ _ h3 (λ w4 _ s4 h4. after_both _ _ _ h4 (λ w5 at s5 h5.
          after_both _ _ _ h5 (λ w6 current s6 h6. after_both _ _ _ h6 (λ w7 _ s7 h7.
            let (same_world, same_rule) = return-eq-ok h7 in
            let usable =
              kept-IsUsableRule rule at current
                (fill_rule-IsUsableRule rule (checked-eq-ok (check_rule rule) w1 s2)) in
            subst (λ x. IsUsableRule x × (lookup x.id w'.automations ≡ some x)) same_rule
              (
                usable,
                ap
                      (λ (v : World).
                        lookup (keep_history at current (fill_rule rule)).id v.automations)
                      (sym same_world)
                    ∙ save_automation-eq-ok disk _ w6 s7,
              ))))))))

-- A rule that `SaveAutomation` accepts is the one that is stored under its id, and it has a name, a host, a metric with a
-- command, an operator that the loop compares by, and a positive window and cooldown.
pub save_automation_rule-IsUsableRule :
    (clock : ℕ → ℕ) (disk : Disk) (given : AutomationRule) (w : World) {w' : World}
    {r : AutomationRule}
    → save_automation_rule clock disk given w ≡ (w', ok r)
    → IsUsableRule r × (lookup r.id w'.automations ≡ some r)
unfolding save_automation_rule
save_automation_rule-IsUsableRule clock disk given w h =
    save_trimmed-IsUsableRule clock disk (trim_rule given) w h
