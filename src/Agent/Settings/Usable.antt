-- ===== src/Agent/Settings/Usable.antt =====
-- The settings that `Execute` works with.
use ops_terminator.Base.{true, ◌≡◌, refl, inl, inr, Bool-cases}
use ops_terminator.Base.Int.{ℤ, pos, is_positive, is_not_negative}
use ops_terminator.Agent.Settings.{
  RuntimeSettings, positive_or, not_negative_or, normalize_runtime_settings,
}

-- Every bound is positive, but for the tail, which may be 0.
pub record IsUsable (s : RuntimeSettings) : Type 0 where
  pub steps : is_positive s.max_agent_steps ≡ true
  pub soft_limit : is_positive s.context_soft_limit_tokens ≡ true
  pub trigger : is_positive s.compression_trigger_tokens ≡ true
  pub reserve : is_positive s.response_reserve_tokens ≡ true
  pub recent : is_positive s.recent_full_turns ≡ true
  pub ledger : is_positive s.older_user_ledger_entries ≡ true
  pub ttl : is_positive s.host_profile_ttl_minutes ≡ true
  pub result_max : is_positive s.tool_result_max_chars ≡ true
  pub result_head : is_positive s.tool_result_head_chars ≡ true
  pub result_tail : is_not_negative s.tool_result_tail_chars ≡ true
  pub sops : is_positive s.sop_retrieval_limit ≡ true

is_positive-positive_or : (n d : ℤ) → is_positive d ≡ true → is_positive (positive_or n d) ≡ true
unfolding positive_or
is_positive-positive_or n d h = elim (Bool-cases (is_positive n)) [
  | inl e ↦ rw e e
  | inr e ↦ rw e h
]

is_not_negative-not_negative_or :
    (n d : ℤ) → is_not_negative d ≡ true → is_not_negative (not_negative_or n d) ≡ true
unfolding not_negative_or
is_not_negative-not_negative_or n d h = elim (Bool-cases (is_not_negative n)) [
  | inl e ↦ rw e e
  | inr e ↦ rw e h
]

positive_or-fixed : (n d : ℤ) → is_positive n ≡ true → positive_or n d ≡ n
unfolding positive_or
positive_or-fixed n d h = rw h refl

not_negative_or-fixed : (n d : ℤ) → is_not_negative n ≡ true → not_negative_or n d ≡ n
unfolding not_negative_or
not_negative_or-fixed n d h = rw h refl

-- Settings that are normalised are usable, whatever they were.
normalize_runtime_settings-IsUsable :
    (s : RuntimeSettings) → IsUsable (normalize_runtime_settings s)
unfolding normalize_runtime_settings
normalize_runtime_settings-IsUsable s = record {
  steps = is_positive-positive_or s.max_agent_steps _ refl;
  soft_limit = is_positive-positive_or s.context_soft_limit_tokens _ refl;
  trigger = is_positive-positive_or s.compression_trigger_tokens _ refl;
  reserve = is_positive-positive_or s.response_reserve_tokens _ refl;
  recent = is_positive-positive_or s.recent_full_turns _ refl;
  ledger = is_positive-positive_or s.older_user_ledger_entries _ refl;
  ttl = is_positive-positive_or s.host_profile_ttl_minutes _ refl;
  result_max = is_positive-positive_or s.tool_result_max_chars _ refl;
  result_head = is_positive-positive_or s.tool_result_head_chars _ refl;
  result_tail = is_not_negative-not_negative_or s.tool_result_tail_chars _ refl;
  sops = is_positive-positive_or s.sop_retrieval_limit _ refl;
}

-- Usable settings are left as they are.
normalize_runtime_settings-fixed :
    (s : RuntimeSettings) → IsUsable s → normalize_runtime_settings s ≡ s
unfolding normalize_runtime_settings
normalize_runtime_settings-fixed s u =
    rw
      (
        positive_or-fixed s.max_agent_steps (pos 20) u.steps,
        positive_or-fixed s.context_soft_limit_tokens (pos 20000) u.soft_limit,
        positive_or-fixed s.compression_trigger_tokens (pos 16000) u.trigger,
        positive_or-fixed s.response_reserve_tokens (pos 4000) u.reserve,
        positive_or-fixed s.recent_full_turns (pos 2) u.recent,
        positive_or-fixed s.older_user_ledger_entries (pos 6) u.ledger,
        positive_or-fixed s.host_profile_ttl_minutes (pos 30) u.ttl,
        positive_or-fixed s.tool_result_max_chars (pos 6000) u.result_max,
        positive_or-fixed s.tool_result_head_chars (pos 4000) u.result_head,
        not_negative_or-fixed s.tool_result_tail_chars (pos 1200) u.result_tail,
        positive_or-fixed s.sop_retrieval_limit (pos 3) u.sops,
      )
      refl

-- Settings of any kind are usable once they are normalised: every bound of the agent's loop is
-- positive (that of the tail of a result not negative). Settings that are usable before are left as
-- they are.
pub normalize_runtime_settings_lem :
    (any usable : RuntimeSettings)
    → IsUsable usable
    → IsUsable (normalize_runtime_settings any) × (normalize_runtime_settings usable ≡ usable)
normalize_runtime_settings_lem any usable u =
    (normalize_runtime_settings-IsUsable any, normalize_runtime_settings-fixed usable u)
