-- ===== src/Agent/Memory/Partition.antt =====
-- The turns that are compacted and those that are kept in full do not overlap and miss none.
use ops_terminator.Base.{
  ℕ, zero, suc, ◌+◌, ◌-◌, ◌≤◌, ◌<◌, false, List, [], ◌∷◌, ◌++◌, ◌≡◌, ◌≢◌, refl, ap, ◌∙◌, arith,
  ◌==◌, nat_eq, text_eq, text_beq, ==_iff, ==-refl, leb, All,
}
use ops_terminator.Base.Text.{Text}
use ops_terminator.Agent.Memory.{
  Turn, count_turns, turns_from, turns_to, select_recent_turns, select_turns_to_compact,
  compact_start, index_behind,
}

module _ {A : Type 0} where
  turns_to-turns_from :
      (n : ℕ) (turns : List (Turn A)) → turns_to n turns ++ turns_from n turns ≡ turns
  turns_to-turns_from zero turns = refl
  turns_to-turns_from (suc n) [] = refl
  turns_to-turns_from (suc n) (t ∷ turns) = ap (◌∷◌ t) (turns_to-turns_from n turns)

  turns_from-turns_to :
      (start n : ℕ) (turns : List (Turn A))
      → start ≤ n
      → turns_from start (turns_to n turns) ++ turns_from n turns ≡ turns_from start turns
  turns_from-turns_to zero n turns h = turns_to-turns_from n turns
  turns_from-turns_to (suc start) zero turns h = absurd (omega arith)
  turns_from-turns_to (suc start) (suc n) [] h = refl
  turns_from-turns_to (suc start) (suc n) (t ∷ turns) h =
      turns_from-turns_to start n turns (omega arith)

  turns_from-count :
      (before rest : List (Turn A)) (t : Turn A)
      → turns_from (suc (count_turns before)) (before ++ (t ∷ rest)) ≡ rest
  turns_from-count [] rest t = refl
  turns_from-count (_ ∷ before) rest t = turns_from-count before rest t

  count_turns-append :
      (before rest : List (Turn A))
      → count_turns (before ++ rest) ≡ count_turns before + count_turns rest
  count_turns-append [] rest = omega arith
  count_turns-append (_ ∷ before) rest = let more = count_turns-append before rest in omega arith

  -- The loop finds the first turn with the id.
  index_behind-first :
      (index : ℕ) (before rest : List (Turn A)) (t : Turn A)
      → All (λ (u : Turn A). u.id ≢ t.id) before
      → index_behind t.id index (before ++ (t ∷ rest)) ≡ suc (index + count_turns before)
  unfolding index_behind
  index_behind-first index [] rest t h = rw (==-refl t.id) (omega arith)
  index_behind-first index (u ∷ before) rest t h =
      let other : (u.id == t.id) ≡ false = ground (arith, ==_iff u.id t.id) in
      rw other (index_behind-first (suc index) before rest t h.1 ∙ omega arith)

  compact_start-first :
      (before rest : List (Turn A)) (t : Turn A)
      → t.id ≢ []
      → All (λ (u : Turn A). u.id ≢ t.id) before
      → compact_start (before ++ (t ∷ rest)) t.id ≡ suc (count_turns before)
  unfolding compact_start
  compact_start-first before rest t set h =
      let named : (t.id == []) ≡ false = ground (arith, ==_iff t.id []) in
      rw named (index_behind-first 0 before rest t h ∙ omega arith)

  -- Behind the start, the turns are those compacted now and those kept in full.
  selected :
      (turns : List (Turn A)) (until : Text) (recent : ℕ)
      → 0 < recent
      → compact_start turns until + recent < count_turns turns
      → select_turns_to_compact turns until recent ++ select_recent_turns turns recent
        ≡ turns_from (compact_start turns until) turns
  unfolding select_turns_to_compact select_recent_turns
  selected turns until recent pos h =
      let few : leb (count_turns turns) recent ≡ false = ground arith in
      let none_set : (recent == 0) ≡ false = ground arith in
      let some_left : leb (count_turns turns - recent) (compact_start turns until) ≡ false =
        ground arith in
      rw (few, none_set, some_left)
        (turns_from-turns_to (compact_start turns until) (count_turns turns - recent) turns
          (omega arith))

  -- A history has the turn up to which it was compacted, with an id that is not empty and that no
  -- turn before it has, and behind it more turns than are to be kept in full, at least one. Then the
  -- turns compacted now and those kept are, in this order, the turns behind that turn; and where
  -- nothing was compacted yet, they are the whole history.
  pub select_turns_to_compact-select_recent_turns :
      (before rest : List (Turn A)) (t : Turn A) (recent : ℕ)
      → t.id ≢ []
      → All (λ (u : Turn A). u.id ≢ t.id) before
      → 0 < recent
      → recent < count_turns rest
      → let turns = before ++ (t ∷ rest) in
        (select_turns_to_compact turns t.id recent ++ select_recent_turns turns recent ≡ rest)
        × (select_turns_to_compact turns [] recent ++ select_recent_turns turns recent ≡ turns)
  unfolding compact_start text_beq
  select_turns_to_compact-select_recent_turns before rest t recent set first pos more =
      let turns = before ++ (t ∷ rest) in
      let start = compact_start-first before rest t set first in
      let count = count_turns-append before (t ∷ rest) in
      let none_before : compact_start turns [] ≡ 0 = refl in
      (
        selected turns t.id recent pos (rw start (omega arith))
            ∙ ap (λ n. turns_from n turns) start
            ∙ turns_from-count before rest t,
        selected turns [] recent pos (rw none_before (omega arith)),
      )
