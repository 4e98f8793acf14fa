-- ===== src/Base/Text.antt =====
-- Go strings as lists of bytes, with what the program uses of the packages `strings` and `unicode`.
-- A literal is encoded in UTF-8. Case mapping covers the letters that can meet an ASCII letter
-- (A to Z, U+0130, U+212A and, for `EqualFold`, U+017F); other letters are left as they are, and
-- the program compares the results with ASCII literals only.
pub mod Trim
pub mod Decimal
use Prim.Native.Nat.{ℕ, zero, suc, ◌+◌, ◌-◌, ◌/◌, ◌%◌, ◌≤◌}
use native.Mathlib.Omega.{arith}
use Prim.Native.Char.{code}
use Prim.Native.String.{String}
use mathlib.Core.Bool.{Bool, true, false, ◌&&◌, ◌||◌}
use mathlib.Core.List.{List, [], ◌∷◌, ◌++◌, map, reverse}
use ops_terminator.Base.Lists.{all_true}
use ops_terminator.Base.Tests.{
  ltb, leb, ◌==◌, ==_iff, nat_eq, text_eq, text_beq, if◌then◌else◌, Bool-cases, and_left, and_right,
}
use mathlib.Core.Path.{◌≡◌, refl, ap}
use mathlib.Core.Logic.{inl, inr}

abbrev pub Text : Type 0
Text = List ℕ

encode_rune : ℕ → Text
encode_rune c =
    if ltb c 0x80
    then c ∷ []
    else if ltb c 0x800
    then (0xc0 + c / 64) ∷ (0x80 + c % 64) ∷ []
    else if ltb c 0x10000
    then (0xe0 + c / 4096) ∷ (0x80 + c / 64 % 64) ∷ (0x80 + c % 64) ∷ []
    else (0xf0 + c / 262144) ∷ (0x80 + c / 4096 % 64) ∷ (0x80 + c / 64 % 64) ∷ (0x80 + c % 64) ∷ []

-- The bytes of a literal.
unfoldable pub bytes : String → Text
unfolding encode_rune
bytes String.[] = []
bytes (String.◌∷◌ c s) = encode_rune (code c) ++ bytes s

-- `len(s)`.
abbrev pub length : Text → ℕ
length [] = 0
length (c ∷ s) = suc (length s)

-- `unicode.IsSpace(rune(b))` for a byte `b`.
unfoldable pub is_space : ℕ → Bool
is_space c = leb 9 c && leb c 13 || c == 32 || c == 0x85 || c == 0xa0

-- `strings.HasPrefix(s, prefix)`, the prefix first.
unfoldable pub has_prefix : Text → Text → Bool
has_prefix [] s = true
has_prefix (p ∷ ps) [] = false
has_prefix (p ∷ ps) (c ∷ s) = p == c && has_prefix ps s

-- `strings.Contains(s, part)`, the part first.
unfoldable pub contains : Text → Text → Bool
unfolding has_prefix
contains part [] = part == []
contains part (c ∷ s) = has_prefix part (c ∷ s) || contains part s

-- The UTF-8 encodings of the runes that `unicode.IsSpace` accepts.
abbrev pub white_space : List Text
white_space =
    (9 ∷ [])
    ∷ (10 ∷ [])
    ∷ (11 ∷ [])
    ∷ (12 ∷ [])
    ∷ (13 ∷ [])
    ∷ (32 ∷ [])
    ∷ (0xc2 ∷ 0x85 ∷ [])
    ∷ (0xc2 ∷ 0xa0 ∷ [])
    ∷ (0xe1 ∷ 0x9a ∷ 0x80 ∷ [])
    ∷ (0xe2 ∷ 0x80 ∷ 0x80 ∷ [])
    ∷ (0xe2 ∷ 0x80 ∷ 0x81 ∷ [])
    ∷ (0xe2 ∷ 0x80 ∷ 0x82 ∷ [])
    ∷ (0xe2 ∷ 0x80 ∷ 0x83 ∷ [])
    ∷ (0xe2 ∷ 0x80 ∷ 0x84 ∷ [])
    ∷ (0xe2 ∷ 0x80 ∷ 0x85 ∷ [])
    ∷ (0xe2 ∷ 0x80 ∷ 0x86 ∷ [])
    ∷ (0xe2 ∷ 0x80 ∷ 0x87 ∷ [])
    ∷ (0xe2 ∷ 0x80 ∷ 0x88 ∷ [])
    ∷ (0xe2 ∷ 0x80 ∷ 0x89 ∷ [])
    ∷ (0xe2 ∷ 0x80 ∷ 0x8a ∷ [])
    ∷ (0xe2 ∷ 0x80 ∷ 0xa8 ∷ [])
    ∷ (0xe2 ∷ 0x80 ∷ 0xa9 ∷ [])
    ∷ (0xe2 ∷ 0x80 ∷ 0xaf ∷ [])
    ∷ (0xe2 ∷ 0x81 ∷ 0x9f ∷ [])
    ∷ (0xe3 ∷ 0x80 ∷ 0x80 ∷ [])
    ∷ []

-- The length of the first listed text that `s` begins with, 0 if there is none.
width_in : List Text → Text → ℕ
unfolding has_prefix
width_in [] s = 0
width_in (w ∷ ws) s = if has_prefix w s then length w else width_in ws s

-- Drops listed texts from the front; the number counts the bytes of one still to be dropped.
trim_front : List Text → ℕ → Text → Text
unfolding width_in
trim_front ws k [] = []
trim_front ws (suc k) (c ∷ s) = trim_front ws k s
trim_front ws zero (c ∷ s) = elim (width_in ws (c ∷ s)) [ zero ↦ c ∷ s | suc k ↦ trim_front ws k s ]

-- `strings.TrimSpace(s)`.
unfoldable pub trim_space : Text → Text
unfolding trim_front
trim_space s =
    reverse (trim_front (map reverse white_space) 0 (reverse (trim_front white_space 0 s)))

lower_byte : ℕ → ℕ
lower_byte c = if leb b'A' c && leb c b'Z' then c + 32 else c

-- The lower case of the first rune, and how many further bytes it takes up: U+0130 gives `i` and
-- U+212A gives `k`, the only other runes whose lower case is ASCII.
lower_head : ℕ → Text → ℕ × ℕ
unfolding has_prefix lower_byte
lower_head c s =
    if has_prefix (0xc4 ∷ 0xb0 ∷ []) (c ∷ s)
    then (b'i', 1)
    else if has_prefix (0xe2 ∷ 0x84 ∷ 0xaa ∷ []) (c ∷ s)
    then (b'k', 2)
    else (lower_byte c, 0)

lower_from : ℕ → Text → Text
unfolding lower_head
lower_from k [] = []
lower_from (suc k) (c ∷ s) = lower_from k s
lower_from zero (c ∷ s) = let (d, k) = lower_head c s in d ∷ lower_from k s

-- `strings.ToLower(s)`.
unfoldable pub to_lower : Text → Text
unfolding lower_from
to_lower s = lower_from 0 s

-- The folding of the first rune: U+017F folds to `s` and U+212A to `k`.
fold_head : ℕ → Text → ℕ × ℕ
unfolding has_prefix lower_byte
fold_head c s =
    if has_prefix (0xc5 ∷ 0xbf ∷ []) (c ∷ s)
    then (b's', 1)
    else if has_prefix (0xe2 ∷ 0x84 ∷ 0xaa ∷ []) (c ∷ s)
    then (b'k', 2)
    else (lower_byte c, 0)

fold_from : ℕ → Text → Text
unfolding fold_head
fold_from k [] = []
fold_from (suc k) (c ∷ s) = fold_from k s
fold_from zero (c ∷ s) = let (d, k) = fold_head c s in d ∷ fold_from k s

-- `strings.EqualFold(s, t)`.
unfoldable pub equal_fold : Text → Text → Bool
unfolding fold_from text_beq
equal_fold s t = fold_from 0 s == fold_from 0 t

-- Membership, as in a `switch` with several texts in one case, or a `map[string]bool`.
unfoldable pub one_of : Text → List Text → Bool
one_of t [] = false
one_of t (x ∷ xs) = t == x || one_of t xs

-- `firstNonEmpty(values...)`: the first value that is not blank.
unfoldable pub first_non_empty : List Text → Text
first_non_empty [] = []
first_non_empty (v ∷ vs) = if trim_space v == [] then first_non_empty vs else v

-- What holds of every listed text holds of a text that is one of them.
pub one_of-all_true :
    (p : Text → Bool) (t : Text) (xs : List Text)
    → all_true p xs ≡ true
    → one_of t xs ≡ true
    → p t ≡ true
unfolding one_of all_true
one_of-all_true p t [] h k = cc
one_of-all_true p t (x ∷ xs) h k = elim (Bool-cases (t == x)) [
  | inl e ↦ rw ((==_iff t x).0 e) (and_left (p x) (all_true p xs) h)
  | inr e ↦ one_of-all_true p t xs (and_right (p x) (all_true p xs) h) (rw e at k)
]

abbrev pub take : ℕ → Text → Text
take zero s = []
take (suc n) [] = []
take (suc n) (c ∷ s) = c ∷ take n s

abbrev pub drop : ℕ → Text → Text
drop zero s = s
drop (suc n) [] = []
drop (suc n) (c ∷ s) = drop n s

pub length-append : (s t : Text) → length (s ++ t) ≡ length s + length t
length-append [] t = omega arith
length-append (c ∷ s) t = omega (arith, length-append s t)

pub length-take : (n : ℕ) (s : Text) → n ≤ length s → length (take n s) ≡ n
length-take zero s h = refl
length-take (suc n) [] h = absurd (omega arith)
length-take (suc n) (c ∷ s) h = ap suc (length-take n s (omega arith))

pub length-drop : (n : ℕ) (s : Text) → length (drop n s) ≡ length s - n
length-drop zero s = omega arith
length-drop (suc n) [] = omega arith
length-drop (suc n) (c ∷ s) = omega (arith, length-drop n s)
