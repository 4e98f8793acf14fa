-- ===== src/Policy/Rules/Order.antt =====
-- `sortRuleConfigs` sorts, and `normalizeRuleConfigs` returns a configuration for every rule.
use mathlib.Core.List.{Perm}
use mathlib.Core.List.Perm
use mathlib.Core.Bool.{false≢true}
use ops_terminator.Base.{
  ℕ, zero, suc, ◌≤◌, true, ◌||◌, List, [], ◌∷◌, ◌++◌, some, ok, inl, inr, ◌≡◌, refl, ap, arith,
  ◌==◌, text_eq, text_beq, ==_iff, Bool-cases, Option-cases, if◌then◌else◌, >>=-eq-ok, ok-injective,
  subst, ◌∙◌, All, All-imp, ltb,
}
use ops_terminator.Base.Text.{Text, bytes}
use ops_terminator.Policy.Rules.Protected.{sort_rounds-All}
use ops_terminator.Models.{PolicyRuleConfig}
use ops_terminator.Policy.Rules.{
  default_rule_configs, lookup_last, normalize_items, count_items, unseen, seen, place_least,
  sort_rounds, sort_rule_configs, normalize_rule_configs, rule_order,
}

-- Each item comes before all that stand behind it, in the order of the defaults.
abbrev pub IsSorted : List PolicyRuleConfig → Type 0
IsSorted [] = Unit
IsSorted (x ∷ xs) = All (λ y. rule_order x ≤ rule_order y) xs × IsSorted xs

place_least-le :
    (least : PolicyRuleConfig) (items : List PolicyRuleConfig)
    → rule_order (place_least least items).0 ≤ rule_order least
unfolding place_least
place_least-le least [] = omega arith
place_least-le least (item ∷ items) = elim (Bool-cases (ltb (rule_order item) (rule_order least))) [
  | inl e ↦ rw e (let r = place_least-le item items in ground arith)
  | inr e ↦ rw e (place_least-le least items)
]

place_least-All :
    (m : ℕ) (least : PolicyRuleConfig) (items : List PolicyRuleConfig)
    → m ≤ rule_order (place_least least items).0
    → All (λ y. m ≤ rule_order y) (place_least least items).1
unfolding place_least
place_least-All m least [] h = tt
place_least-All m least (item ∷ items) h =
    elim (Bool-cases (ltb (rule_order item) (rule_order least))) [
      | inl e ↦ rw e (
        ground (arith, place_least-le item items, rw e at h),
        place_least-All m item items (rw e at h),
      )
      | inr e ↦ rw e (
        ground (arith, place_least-le least items, rw e at h),
        place_least-All m least items (rw e at h),
      )
    ]

count_items-place_least :
    (least : PolicyRuleConfig) (items : List PolicyRuleConfig)
    → count_items (place_least least items).1 ≡ count_items items
unfolding place_least
count_items-place_least least [] = refl
count_items-place_least least (item ∷ items) = ap suc (
    count_items-place_least (if ltb (rule_order item) (rule_order least) then item else least)
      items)

place_least-perm :
    (least : PolicyRuleConfig) (items : List PolicyRuleConfig)
    → Perm ((place_least least items).0 ∷ (place_least least items).1) (least ∷ items)
unfolding place_least
place_least-perm least [] = Perm.refl _
place_least-perm least (item ∷ items) =
    elim (Bool-cases (ltb (rule_order item) (rule_order least))) [
      | inl e ↦ rw e (Perm.trans (Perm.swap _ _ _) (Perm.cons least (place_least-perm item items)))
      | inr e ↦ rw e (
          Perm.trans (Perm.swap _ _ _)
            (Perm.trans (Perm.cons item (place_least-perm least items)) (Perm.swap _ _ _)))
    ]

sort_rounds-perm : (n : ℕ) (items : List PolicyRuleConfig) → Perm (sort_rounds n items) items
unfolding sort_rounds
sort_rounds-perm zero items = Perm.refl items
sort_rounds-perm (suc n) [] = Perm.refl []
sort_rounds-perm (suc n) (item ∷ items) =
    Perm.trans (Perm.cons _ (sort_rounds-perm n _)) (place_least-perm item items)

sort_rounds-IsSorted :
    (n : ℕ) (items : List PolicyRuleConfig) → count_items items ≤ n → IsSorted (sort_rounds n items)
unfolding sort_rounds
sort_rounds-IsSorted zero [] h = tt
sort_rounds-IsSorted zero (item ∷ items) h = absurd (omega arith)
sort_rounds-IsSorted (suc n) [] h = tt
sort_rounds-IsSorted (suc n) (item ∷ items) h = (
  sort_rounds-All _ n _ (place_least-All _ item items (omega arith)),
  sort_rounds-IsSorted n _ (omega (arith, count_items-place_least item items)),
)

-- `sortRuleConfigs` returns the items it was given, each as often, in the order of the defaults.
pub sort_rule_configs-IsSorted :
    (items : List PolicyRuleConfig)
    → IsSorted (sort_rule_configs items) × Perm (sort_rule_configs items) items
unfolding sort_rule_configs
sort_rule_configs-IsSorted items =
    (sort_rounds-IsSorted _ items (omega arith), sort_rounds-perm _ items)

-- A rule that is in one of the lists is in their concatenation.
seen-append :
    (id : Text) (xs ys : List PolicyRuleConfig) → seen id (xs ++ ys) ≡ (seen id xs || seen id ys)
unfolding seen
seen-append id [] ys = refl
seen-append id (x ∷ xs) ys = ground (arith, seen-append id xs ys)

seen-place_least :
    (id : Text) (least : PolicyRuleConfig) (items : List PolicyRuleConfig)
    → seen id ((place_least least items).0 ∷ (place_least least items).1) ≡ seen id (least ∷ items)
unfolding place_least seen
seen-place_least id least [] = refl
seen-place_least id least (item ∷ items) =
    elim (Bool-cases (ltb (rule_order item) (rule_order least))) [
      | inl e ↦ rw e (ground (arith, seen-place_least id item items))
      | inr e ↦ rw e (ground (arith, seen-place_least id least items))
    ]

seen-sort_rounds :
    (id : Text) (n : ℕ) (items : List PolicyRuleConfig)
    → seen id (sort_rounds n items) ≡ seen id items
unfolding sort_rounds seen
seen-sort_rounds id zero items = refl
seen-sort_rounds id (suc n) [] = refl
seen-sort_rounds id (suc n) (item ∷ items) =
    rw (seen-sort_rounds id n (place_least item items).1) (seen-place_least id item items)

seen-unseen :
    (id : Text) (merged items : List PolicyRuleConfig)
    → seen id items ≡ true
    → (seen id merged || seen id (unseen merged items)) ≡ true
unfolding unseen seen
seen-unseen id merged [] h = cc
seen-unseen id merged (item ∷ items) h =
    ground (arith, ==_iff item.id id, seen-unseen id merged items)

lookup_last-seen :
    (id : Text) (items : List PolicyRuleConfig)
    → seen id items ≡ true
    → (c : PolicyRuleConfig) × (lookup_last id items ≡ some c)
unfolding lookup_last seen
lookup_last-seen id [] h = absurd (false≢true h)
lookup_last-seen id (item ∷ items) h = elim (Option-cases (lookup_last id items)) [
  | inr (c, f) ↦ (c, rw f)
  | inl f ↦ elim (Bool-cases (item.id == id)) [
    | inl e ↦ (item, rw (f, e))
    | inr e ↦ let (c, g) = lookup_last-seen id items (rw e at h) in cc
  ]
]

default_rule_configs-seen :
    (now : ℕ) → All (λ d. seen d.id (default_rule_configs now) ≡ true) (default_rule_configs now)
unfolding seen bytes text_beq
default_rule_configs-seen now = ground arith

-- After a configuration is accepted every default rule has a configuration in the map.
pub normalize_rule_configs-covers :
    (now : ℕ) (rules : List PolicyRuleConfig) {ms : List PolicyRuleConfig}
    → normalize_rule_configs now rules ≡ ok ms
    → All (λ d. (c : PolicyRuleConfig) × (lookup_last d.id ms ≡ some c)) (default_rule_configs now)
unfolding normalize_rule_configs sort_rule_configs
normalize_rule_configs-covers now rules {ms} h =
    let (merged, one, e) = >>=-eq-ok (normalize_items now rules) _ h in
    All-imp (default_rule_configs now)
      (λ d s. lookup_last-seen d.id ms (
        subst (λ l. seen d.id l ≡ true) (ok-injective e)
          (seen-sort_rounds d.id _ _
            ∙ seen-append d.id merged _
            ∙ seen-unseen d.id merged (default_rule_configs now) s)))
      (default_rule_configs-seen now)
