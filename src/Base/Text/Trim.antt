-- ===== src/Base/Text/Trim.antt =====
-- `strings.TrimSpace` leaves a text alone whose first and last bytes are visible ASCII characters.
use mathlib.Core.List.{reverse-append, reverse-reverse}
use mathlib.Core.Path.{◌≡◌, refl, sym, ap, ◌∙◌}
use mathlib.Core.Bool.{Bool, true, false, ◌&&◌, not, false≢true}
use mathlib.Core.List.{List, [], ◌∷◌, ◌++◌, map, reverse}
use Prim.Native.Nat.{ℕ}
use native.Mathlib.Omega.{arith}
use ops_terminator.Base.Lists.{all_true}
use ops_terminator.Base.Tests.{ltb, nat_eq, and_left, and_right}
use ops_terminator.Base.Text.{Text, white_space, has_prefix, width_in, trim_front, trim_space}

-- A visible ASCII character.
abbrev pub is_visible : ℕ → Bool
is_visible c = ltb 32 c && ltb c 128

-- The text does not begin with a visible ASCII character.
abbrev begins_blank : Text → Bool
begins_blank [] = false
begins_blank (c ∷ s) = not (is_visible c)

has_prefix-is_visible :
    (w : Text) (c : ℕ) (s : Text)
    → begins_blank w ≡ true
    → is_visible c ≡ true
    → has_prefix w (c ∷ s) ≡ false
unfolding has_prefix
has_prefix-is_visible [] c s h v = absurd (false≢true h)
has_prefix-is_visible (p ∷ w) c s h v = ground arith

width_in-is_visible :
    (ws : List Text) (c : ℕ) (s : Text)
    → all_true begins_blank ws ≡ true
    → is_visible c ≡ true
    → width_in ws (c ∷ s) ≡ 0
unfolding width_in all_true
width_in-is_visible [] c s h v = refl
width_in-is_visible (w ∷ ws) c s h v =
    rw (has_prefix-is_visible w c s (and_left (begins_blank w) _ h) v)
      (width_in-is_visible ws c s (and_right (begins_blank w) _ h) v)

trim_front-is_visible :
    (ws : List Text) (c : ℕ) (s : Text)
    → all_true begins_blank ws ≡ true
    → is_visible c ≡ true
    → trim_front ws 0 (c ∷ s) ≡ c ∷ s
unfolding trim_front
trim_front-is_visible ws c s h v = rw (width_in-is_visible ws c s h v, trim_front)

-- A text between two visible characters is left alone.
pub trim_space-is_visible :
    (a : ℕ) (s : Text) (z : ℕ)
    → is_visible a ≡ true
    → is_visible z ≡ true
    → trim_space (a ∷ (s ++ (z ∷ []))) ≡ a ∷ (s ++ (z ∷ []))
unfolding trim_space all_true
trim_space-is_visible a s z va vz =
    ap (λ t. reverse (trim_front (map reverse white_space) 0 (reverse t)))
      (trim_front-is_visible white_space a (s ++ (z ∷ [])) refl va)
    ∙ ap (λ t. reverse (trim_front (map reverse white_space) 0 t)) (reverse-append (a ∷ s) (z ∷ []))
    ∙ ap reverse (trim_front-is_visible (map reverse white_space) z (reverse (a ∷ s)) refl vz)
    ∙ ap reverse (sym (reverse-append (a ∷ s) (z ∷ [])))
    ∙ reverse-reverse (a ∷ (s ++ (z ∷ [])))
