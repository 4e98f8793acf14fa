-- ===== src/Policy/Rules/Protected.antt =====
-- What `normalizeRuleConfigs` guarantees of the rules that deny: no accepted configuration relaxes
-- them, and none of the rules is lost.
use ops_terminator.Base.{
  ℕ, zero, suc, Bool, true, false, List, [], ◌∷◌, Option, none, some, ok, inl, inr, ◌≡◌, refl, ap,
  sym, arith, ◌==◌, text_eq, ==_iff, Bool-cases, Option-cases, text_beq, ok-injective, subst, ◌∙◌,
  if◌then◌else◌, >>=-eq-ok, All, All-append, ltb,
}
use mathlib.Core.Option.{some-injective}
use ops_terminator.Base.Text.{Text, bytes, trim_space, one_of}
use ops_terminator.Models.{PolicyRuleConfig, policy_decision_deny}
use ops_terminator.Policy.Rules.{
  default_rule_configs, is_protected_deny_rule, is_known_decision, lookup_last, merge_with_base,
  merge_found, accept_item, normalize_item, normalize_items, unseen, seen, place_least, sort_rounds,
  sort_rule_configs, normalize_rule_configs, rule_order,
}

-- The configuration does not relax a protected rule, and its decision is one of the three.
pub record IsEnforced (c : PolicyRuleConfig) : Type 0 where
  pub known : is_known_decision c.decision ≡ true
  pub denies : is_protected_deny_rule c.id ≡ true → c.decision ≡ policy_decision_deny
  pub no_override : is_protected_deny_rule c.id ≡ true → c.override_allowed ≡ false

accept_item-IsEnforced :
    (now : ℕ) (item : PolicyRuleConfig) {m : PolicyRuleConfig}
    → accept_item now item ≡ ok m
    → IsEnforced m
unfolding accept_item
accept_item-IsEnforced now item h = ground (arith, ==_iff item.decision policy_decision_deny)

merge_found-IsEnforced :
    (now : ℕ) (item : PolicyRuleConfig) (base : Option PolicyRuleConfig) {m : PolicyRuleConfig}
    → merge_found now item base ≡ ok m
    → IsEnforced m
unfolding merge_found
merge_found-IsEnforced now item none h = cc
merge_found-IsEnforced now item (some base) h =
    accept_item-IsEnforced now (merge_with_base item base) h

normalize_item-IsEnforced :
    (now : ℕ) (item : PolicyRuleConfig) {m : PolicyRuleConfig}
    → normalize_item now item ≡ ok m
    → IsEnforced m
unfolding normalize_item
normalize_item-IsEnforced now item h = elim (Bool-cases (trim_space item.id == [])) [
  | inl e ↦ cc (rw e at h)
  | inr e ↦ merge_found-IsEnforced now (record item { id = trim_space item.id }) _ (rw e at h)
]

normalize_items-IsEnforced :
    (now : ℕ) (items : List PolicyRuleConfig) {ms : List PolicyRuleConfig}
    → normalize_items now items ≡ ok ms
    → All IsEnforced ms
unfolding normalize_items
normalize_items-IsEnforced now [] h = subst (All IsEnforced) (ok-injective h) tt
normalize_items-IsEnforced now (item ∷ items) h =
    let (m, one, h') = >>=-eq-ok (normalize_item now item) _ h in
    let (ms, more, e) = >>=-eq-ok (normalize_items now items) _ h' in
    subst (All IsEnforced) (ok-injective e)
      (normalize_item-IsEnforced now item one, normalize_items-IsEnforced now items more)

default_rule_configs-IsEnforced : (now : ℕ) → All IsEnforced (default_rule_configs now)
unfolding is_known_decision is_protected_deny_rule one_of bytes text_beq
default_rule_configs-IsEnforced now = ground arith

unseen-All :
    (P : PolicyRuleConfig → Type 0) (merged items : List PolicyRuleConfig)
    → All P items
    → All P (unseen merged items)
unfolding unseen
unseen-All P merged [] h = tt
unseen-All P merged (item ∷ items) h = elim (Bool-cases (seen item.id merged)) [
  | inl e ↦ rw e (unseen-All P merged items h.1)
  | inr e ↦ rw e (h.0, unseen-All P merged items h.1)
]

place_least-All :
    (P : PolicyRuleConfig → Type 0) (least : PolicyRuleConfig) (items : List PolicyRuleConfig)
    → P least
    → All P items
    → P (place_least least items).0 × All P (place_least least items).1
unfolding place_least
place_least-All P least [] h k = (h, k)
place_least-All P least (item ∷ items) h k =
    elim (Bool-cases (ltb (rule_order item) (rule_order least))) [
      | inl e ↦ rw e (let r = place_least-All P item items k.0 k.1 in (r.0, (h, r.1)))
      | inr e ↦ rw e (let r = place_least-All P least items h k.1 in (r.0, (k.0, r.1)))
    ]

pub sort_rounds-All :
    (P : PolicyRuleConfig → Type 0) (n : ℕ) (items : List PolicyRuleConfig)
    → All P items
    → All P (sort_rounds n items)
unfolding sort_rounds
sort_rounds-All P zero items h = h
sort_rounds-All P (suc n) [] h = tt
sort_rounds-All P (suc n) (item ∷ items) h =
    let r = place_least-All P item items h.0 h.1 in (r.0, sort_rounds-All P n _ r.1)

-- Every configuration that `normalizeRuleConfigs` returns has a known decision, and those of the
-- protected rules deny and allow no override.
pub normalize_rule_configs-IsEnforced :
    (now : ℕ) (rules : List PolicyRuleConfig) {ms : List PolicyRuleConfig}
    → normalize_rule_configs now rules ≡ ok ms
    → All IsEnforced ms
unfolding normalize_rule_configs sort_rule_configs
normalize_rule_configs-IsEnforced now rules h =
    let (merged, one, e) = >>=-eq-ok (normalize_items now rules) _ h in
    subst (All IsEnforced) (ok-injective e) (
      sort_rounds-All IsEnforced _ _ (
        All-append IsEnforced merged _ (normalize_items-IsEnforced now rules one)
          (unseen-All IsEnforced merged _ (default_rule_configs-IsEnforced now))))

-- What a lookup finds has the id that was asked for, and what holds of every item.
pub lookup_last-All :
    (P : PolicyRuleConfig → Type 0) (id : Text) (items : List PolicyRuleConfig)
    {c : PolicyRuleConfig}
    → All P items
    → lookup_last id items ≡ some c
    → P c × (c.id ≡ id)
unfolding lookup_last
lookup_last-All P id [] h e = cc
lookup_last-All P id (item ∷ items) {c} h e = elim (Option-cases (lookup_last id items)) [
  | inr (d, f) ↦ lookup_last-All P id items h.1 (f ∙ (rw f at e))
  | inl f ↦ here (item.id == id) refl (rw f at e)
]
  where
    here :
        (b : Bool) → item.id == id ≡ b → (if b then some item else none) ≡ some c → P c × c.id ≡ id
    here true same e' =
        let q = some-injective item c e' in
        (subst P q h.0, ap (λ (x : PolicyRuleConfig). x.id) (sym q) ∙ (==_iff item.id id).0 same)
    here false other e' = cc
