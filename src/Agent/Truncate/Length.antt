-- ===== src/Agent/Truncate/Length.antt =====
-- The length of a truncated text.
use ops_terminator.Base.{
  ℕ, ◌+◌, ◌-◌, ◌/◌, ◌≤◌, ◌<◌, ◌≡◌, ◌⊎◌, inl, inr, ◌==◌, nat_eq, leb, ◌∙◌, arith, Bool-cases, false,
  if◌then◌else◌, refl,
}
use ops_terminator.Base.Text.{
  Text, length, take, drop, trim_space, length-append, length-take, length-drop, bytes,
}
use ops_terminator.Base.Text.Decimal.{decimal, length-decimal}
use ops_terminator.Agent.Truncate.{
  notice, at_least_one, keep_ends, truncate_trimmed, truncate_middle,
}

length-keep_ends :
    (value : Text) (limit : ℕ) (note : Text)
    → length note + 2 ≤ limit
    → limit < length value
    → length (keep_ends value limit note) ≡ limit
unfolding keep_ends
length-keep_ends value limit note h k =
    let head = (limit - length note) / 2 in
    let tail = limit - length note - head in
    length-append (take (at_least_one head) value) _
    ∙ ground (
      arith,
      length-append note (drop (length value - at_least_one tail) value),
      length-take (at_least_one head) value (ground arith),
      length-drop (length value - at_least_one tail) value,
    )

length-notice : (n : ℕ) → n < 9223372036854775808 → length (notice n) ≤ 47
unfolding notice bytes
length-notice n h =
    let digits = length-decimal n h in
    let split = length-append (decimal n) (bytes " chars] ... ") in omega arith

length-truncate_trimmed :
    (value : Text) (limit : ℕ)
    → 0 < limit
    → (limit ≤ 24) ⊎ (49 ≤ limit)
    → length value < 9223372036854775808
    → length (truncate_trimmed value limit)
      ≡ (if leb (length value) limit then length value else limit)
unfolding truncate_trimmed
length-truncate_trimmed value limit pos h few =
    let none_set : (limit == 0) ≡ false = ground arith in
    rw none_set (elim (Bool-cases (leb (length value) limit)) [
      | inl e ↦ rw e refl
      | inr e ↦ elim (Bool-cases (leb limit 24)) [
        | inl f ↦ rw (e, f) (length-take limit value (ground arith))
        | inr f ↦
            let note = length-notice (length value - limit) (omega arith) in
            rw (e, f)
              (length-keep_ends value limit (notice (length value - limit)) (ground arith)
                (ground arith))
      ]
    ])

-- A text of a length below 2 ^ 63, truncated to a limit that is positive and either at most 24 or at
-- least 49, has exactly the limit's length if it is longer than the limit without the blanks at its
-- ends, and the length without those blanks otherwise. Limits of 25 to 48 are left out: there the
-- notice can be longer than what the limit leaves for it.
pub length-truncate_middle :
    (value : Text) (limit : ℕ)
    → 0 < limit
    → (limit ≤ 24) ⊎ (49 ≤ limit)
    → length (trim_space value) < 9223372036854775808
    → length (truncate_middle value limit)
      ≡ (if leb (length (trim_space value)) limit then length (trim_space value) else limit)
unfolding truncate_middle
length-truncate_middle value limit = length-truncate_trimmed (trim_space value) limit
