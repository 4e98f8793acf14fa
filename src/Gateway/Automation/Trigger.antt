-- ===== src/Gateway/Automation/Trigger.antt =====
-- When an automation starts a run, and for how long it then starts no other.
use ops_terminator.Base.{
  ℕ, true, false, List, Option, none, some, Result, ok, err, ◌≡◌, ◌⊎◌, inl, inr, refl, sym, ap, ◌∙◌,
  subst, Bool-cases,
}
use ops_terminator.Base.Int.{ℤ}
use ops_terminator.Base.Text.{Text, bytes}
use ops_terminator.Models.Hosts.{Host}
use ops_terminator.Models.Sessions.{Float64, KnowledgeItem}
use ops_terminator.Models.Automations.{AutomationRule}
use ops_terminator.Store.{Disk, lookup, save_object}
use ops_terminator.Gateway.Context.{Builder}
use ops_terminator.Gateway.Metrics.{
  Sampler, sample_automation_metric, automation_threshold_matched, is_automation_cooldown_blocked,
}
use ops_terminator.Gateway.Service.{World, GatewayError, ignore, get_host, save_automation}
use ops_terminator.Gateway.Service.Frame.{
  get_host-world, SameTables, commit-SameTables, get_host-eq-ok, chosen,
}
use ops_terminator.Gateway.Process.Frame.{same}
use ops_terminator.Gateway.Automation.{after_sample, after_host, run_rule}

-- The conditions under which a rule starts a run.
pub record IsDue (s : Sampler) (at : ℕ) (rule : AutomationRule) (w : World) : Type 0 where
  pub enabled : rule.enabled ≡ true
  pub host : Host
  pub found : lookup rule.host_id w.hosts ≡ some host
  pub value : Float64
  pub sampled : sample_automation_metric s host rule.metric ≡ (value, none)
  pub matched : automation_threshold_matched s value rule.operator rule.threshold ≡ true
  pub elapsed : is_automation_cooldown_blocked rule at ≡ false

save_automation-SameTables :
    (disk : Disk) (r : AutomationRule) (w : World)
    → SameTables w (ignore (save_automation disk r) w).0
unfolding save_automation ignore
save_automation-SameTables disk r w =
    commit-SameTables _ w (save_object disk (bytes "automations") r.id r w.automations)
      (λ t. record { runs = refl; turns = refl; sessions = refl })

module _ (clock : ℕ → ℕ) (disk : Disk) (b : Builder)
    (select_knowledge : Text → ℤ → World → Result Text (List KnowledgeItem)) (s : Sampler) (at : ℕ)
    (rule : AutomationRule) (w : World) where
  after_sample-IsDue :
      (host : Host) (sample : Float64 × Option Text)
      → rule.enabled ≡ true
      → lookup rule.host_id w.hosts ≡ some host
      → sample_automation_metric s host rule.metric ≡ sample
      → SameTables w (after_sample clock disk b select_knowledge s at rule sample w).0
        ⊎ IsDue s at rule w
  unfolding after_sample
  after_sample-IsDue host (value, some why) on found sampled =
      inl (save_automation-SameTables disk _ w)
  after_sample-IsDue host (value, none) on found sampled =
      elim (Bool-cases (automation_threshold_matched s value rule.operator rule.threshold)) [
        | inr calm ↦ inl (rw calm (save_automation-SameTables disk _ w))
        | inl met ↦ elim (Bool-cases (is_automation_cooldown_blocked rule at)) [
          | inl cool ↦ inl (rw (met, cool) (save_automation-SameTables disk _ w))
          | inr past ↦ inr (record {
            enabled = on;
            host = host;
            found = found;
            value = value;
            sampled = sampled;
            matched = met;
            elapsed = past;
          })
        ]
      ]

  after_host-IsDue :
      (r : Result GatewayError (Option Host))
      → rule.enabled ≡ true
      → get_host disk rule.host_id w ≡ (w, r)
      → SameTables w (after_host clock disk b select_knowledge s at rule (w, r)).0
        ⊎ IsDue s at rule w
  unfolding after_host
  after_host-IsDue (err e) on h = inl (same w)
  after_host-IsDue (ok none) on h = inl (same w)
  after_host-IsDue (ok (some host)) on h =
      after_sample-IsDue host (sample_automation_metric s host rule.metric) on
        (get_host-eq-ok disk rule.host_id w h).1 refl

-- One round of the automation loop changes no run, turn or session unless the rule is enabled, its host
-- is stored, its metric is sampled without an error, the sample meets the threshold and the cooldown
-- has passed.
pub run_rule-IsDue :
    (clock : ℕ → ℕ) (disk : Disk) (b : Builder)
    (select_knowledge : Text → ℤ → World → Result Text (List KnowledgeItem)) (s : Sampler) (at : ℕ)
    (rule : AutomationRule) (w : World)
    → SameTables w (run_rule clock disk b select_knowledge s at rule w).0 ⊎ IsDue s at rule w
unfolding run_rule
run_rule-IsDue clock disk b select_knowledge s at rule w = elim (Bool-cases rule.enabled) [
  | inr off ↦ inl (rw off (same w))
  | inl on ↦
      subst (λ r. SameTables w r.0 ⊎ IsDue s at rule w)
        (ap (after_host clock disk b select_knowledge s at rule)
            (sym (get_host-world disk rule.host_id w))
          ∙ sym (
              chosen rule.enabled
                (after_host clock disk b select_knowledge s at rule (get_host disk rule.host_id w))
                (w, ok tt) on))
        (after_host-IsDue clock disk b select_knowledge s at rule w _ on
          (get_host-world disk rule.host_id w))
]
