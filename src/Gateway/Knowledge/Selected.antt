-- ===== src/Gateway/Knowledge/Selected.antt =====
-- Which items reach a prompt.
use ops_terminator.Base.{
  ℕ, zero, suc, ◌≤◌, true, ◌&&◌, List, [], ◌∷◌, ◌≡◌, refl, arith, Bool-cases, inl, inr, All, ltb,
  and_left, ◌||◌, ◌==◌, text_eq,
}
use ops_terminator.Base.Int.{ℤ}
use ops_terminator.Base.Text.{Text}
use ops_terminator.Models.Sessions.{KnowledgeItem}
use ops_terminator.Gateway.Knowledge.{
  knowledge_status_active, knowledge_kind_sop, is_selectable, insert_ranked, ranks_before,
  sort_ranked, first_items, limit_of, score_items, score_of, select_items,
}

-- An item that is active or a procedure.
abbrev IsRanked : ℕ × KnowledgeItem → Type 0
IsRanked x = is_selectable x.1 ≡ true

insert_ranked-All :
    (x : ℕ × KnowledgeItem) (ys : List (ℕ × KnowledgeItem))
    → IsRanked x
    → All IsRanked ys
    → All IsRanked (insert_ranked x ys)
unfolding insert_ranked
insert_ranked-All x [] h k = (h, tt)
insert_ranked-All x (y ∷ ys) h k = elim (Bool-cases (ranks_before y x)) [
  | inl e ↦ rw e (k.0, insert_ranked-All x ys h k.1)
  | inr e ↦ rw e (h, k)
]

sort_ranked-All : (xs : List (ℕ × KnowledgeItem)) → All IsRanked xs → All IsRanked (sort_ranked xs)
unfolding sort_ranked
sort_ranked-All [] h = tt
sort_ranked-All (x ∷ xs) h = insert_ranked-All x (sort_ranked xs) h.0 (sort_ranked-All xs h.1)

score_items-All :
    (lower : Text → Text) (fields : Text → List Text) (tokens : List Text)
    (items : List KnowledgeItem)
    → All IsRanked (score_items lower fields tokens items)
unfolding score_items
score_items-All lower fields tokens [] = tt
score_items-All lower fields tokens (item ∷ items) =
    elim (Bool-cases (is_selectable item && ltb 0 (score_of lower fields tokens item))) [
      | inl e ↦ rw e (and_left (is_selectable item) _ e, score_items-All lower fields tokens items)
      | inr e ↦ rw e (score_items-All lower fields tokens items)
    ]

-- An item that is active, or a procedure of any status, without its embedding.
pub record IsOffered (item : KnowledgeItem) : Type 0 where
  pub known : ((item.status == knowledge_status_active) || (item.kind == knowledge_kind_sop)) ≡ true
  pub no_embedding : item.embedding ≡ []

first_items-All :
    (n : ℕ) (xs : List (ℕ × KnowledgeItem)) → All IsRanked xs → All IsOffered (first_items n xs)
unfolding first_items is_selectable
first_items-All zero xs h = tt
first_items-All (suc n) [] h = tt
first_items-All (suc n) ((s, item) ∷ xs) h =
    (record { known = h.0; no_embedding = refl }, first_items-All n xs h.1)

abbrev pub count_items : List KnowledgeItem → ℕ
count_items [] = 0
count_items (_ ∷ items) = suc (count_items items)

count_items-first_items :
    (n : ℕ) (xs : List (ℕ × KnowledgeItem)) → count_items (first_items n xs) ≤ n
unfolding first_items
count_items-first_items zero xs = omega arith
count_items-first_items (suc n) [] = omega arith
count_items-first_items (suc n) ((s, item) ∷ xs) =
    let h = count_items-first_items n xs in omega arith

-- `SelectKnowledge` gives at most as many items as the limit says, each of them active or a procedure,
-- and without its embedding.
pub select_items-IsOffered :
    (lower : Text → Text) (fields : Text → List Text) (input : Text) (limit : ℤ)
    (items : List KnowledgeItem)
    → All IsOffered (select_items lower fields input limit items)
      × (count_items (select_items lower fields input limit items) ≤ limit_of limit)
unfolding select_items
select_items-IsOffered lower fields input limit items =
    let ranked = sort_ranked (score_items lower fields (fields (lower input)) items) in
    (
      first_items-All (limit_of limit) ranked (
          sort_ranked-All (score_items lower fields (fields (lower input)) items)
            (score_items-All lower fields (fields (lower input)) items)),
      count_items-first_items (limit_of limit) ranked,
    )
