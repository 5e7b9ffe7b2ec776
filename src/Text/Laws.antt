-- ===== src/Text/Laws.antt =====
-- Laws of the string operations: trimming, case mapping and suffixes.
use elchi_gslb.Prelude.{ℕ, ◌≡◌, refl, ap, ◌∙◌, [], ◌∷◌, map, list_eq, nat_eq, is_empty, arith}
use elchi_gslb.Text.{
  Text, is_space, lower_char, upper_char, to_lower, to_upper, trim_left, trim_right, trim_space,
}

lower_char_idem : (c : ℕ) → lower_char (lower_char c) ≡ lower_char c
unfolding lower_char
lower_char_idem c = ground arith

lower_char-upper_char : (c : ℕ) → lower_char (upper_char c) ≡ lower_char c
unfolding lower_char upper_char
lower_char-upper_char c = ground arith

is_space-lower_char : (c : ℕ) → is_space (lower_char c) ≡ is_space c
unfolding lower_char is_space
is_space-lower_char c = ground arith

is_space-upper_char : (c : ℕ) → is_space (upper_char c) ≡ is_space c
unfolding upper_char is_space
is_space-upper_char c = ground arith

pub to_lower_idem : (s : Text) → to_lower (to_lower s) ≡ to_lower s
to_lower_idem [] = refl
to_lower_idem (c ∷ s) = cc (lower_char_idem c, to_lower_idem s)

pub to_lower-to_upper : (s : Text) → to_lower (to_upper s) ≡ to_lower s
to_lower-to_upper [] = refl
to_lower-to_upper (c ∷ s) = cc (lower_char-upper_char c, to_lower-to_upper s)

-- A case mapping that keeps which characters are blank commutes with trimming.
module _ (f : ℕ → ℕ) (keeps : (c : ℕ) → is_space (f c) ≡ is_space c) where
  trim_left-map : (s : Text) → trim_left (map f s) ≡ map f (trim_left s)
  unfolding trim_left
  trim_left-map [] = refl
  trim_left-map (c ∷ s) = ground (arith, keeps c, trim_left-map s)

  is_empty-map : (s : Text) → is_empty (map f s) ≡ is_empty s
  is_empty-map [] = refl
  is_empty-map (c ∷ s) = refl

  trim_right-map : (s : Text) → trim_right (map f s) ≡ map f (trim_right s)
  unfolding trim_right
  trim_right-map [] = refl
  trim_right-map (c ∷ s) = ground (arith, keeps c, trim_right-map s, is_empty-map (trim_right s))

  trim_space-map : (s : Text) → trim_space (map f s) ≡ map f (trim_space s)
  trim_space-map s =
      unfold trim_space in ap trim_right (trim_left-map s) ∙ trim_right-map (trim_left s)

pub trim_space-to_lower : (s : Text) → trim_space (to_lower s) ≡ to_lower (trim_space s)
trim_space-to_lower = trim_space-map lower_char is_space-lower_char

pub trim_space-to_upper : (s : Text) → trim_space (to_upper s) ≡ to_upper (trim_space s)
trim_space-to_upper = trim_space-map upper_char is_space-upper_char
