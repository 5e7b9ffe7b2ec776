-- ===== src/Text/Trim.antt =====
-- What trimming leaves at the two ends of a text.
use elchi_gslb.Prelude.{
  ℕ, ◌≡◌, refl, ap, ◌∙◌, Bool, true, false, not, [], ◌∷◌, ◌++◌, list_eq, nat_eq, arith,
}
use elchi_gslb.Text.{Text, is_space, trim_left, trim_right, trim_space}

abbrev starts_solid : Text → Bool
starts_solid [] = true
starts_solid (c ∷ s) = not (is_space c)

trim_left_solid : (s : Text) → starts_solid s ≡ true → trim_left s ≡ s
unfolding trim_left
trim_left_solid [] h = refl
trim_left_solid (c ∷ s) h = ground arith

starts_solid-trim_left : (s : Text) → starts_solid (trim_left s) ≡ true
unfolding trim_left
starts_solid-trim_left [] = refl
starts_solid-trim_left (c ∷ s) = ground (arith, starts_solid-trim_left s)

starts_solid-trim_right : (s : Text) → starts_solid s ≡ true → starts_solid (trim_right s) ≡ true
unfolding trim_right
starts_solid-trim_right [] h = refl
starts_solid-trim_right (c ∷ s) h = ground arith

trim_right_idem : (s : Text) → trim_right (trim_right s) ≡ trim_right s
unfolding trim_right
trim_right_idem [] = refl
trim_right_idem (c ∷ s) = ground (arith, trim_right_idem s)

pub trim_space_idem : (s : Text) → trim_space (trim_space s) ≡ trim_space s
unfolding trim_space
trim_space_idem s =
    ap trim_right (
      trim_left_solid (trim_right (trim_left s))
        (starts_solid-trim_right (trim_left s) (starts_solid-trim_left s)))
    ∙ trim_right_idem (trim_left s)

module _ (d : ℕ) (solid : is_space d ≡ false) where
  trim_right-concat : (s : Text) → trim_right (s ++ d ∷ []) ≡ s ++ d ∷ []
  unfolding trim_right
  trim_right-concat [] = ground arith
  trim_right-concat (c ∷ []) = ground arith
  trim_right-concat (c ∷ b ∷ s) = ground (arith, trim_right-concat (b ∷ s))

  starts_solid-concat : (s : Text) → starts_solid s ≡ true → starts_solid (s ++ d ∷ []) ≡ true
  starts_solid-concat [] h = ground arith
  starts_solid-concat (c ∷ s) h = h

  -- A trimmed text with one more character, not blank, is trimmed.
  pub trim_space-concat : (s : Text) → trim_space (trim_space s ++ d ∷ []) ≡ trim_space s ++ d ∷ []
  unfolding trim_space
  trim_space-concat s =
      ap trim_right (
        trim_left_solid (trim_right (trim_left s) ++ d ∷ []) (
          starts_solid-concat (trim_right (trim_left s))
            (starts_solid-trim_right (trim_left s) (starts_solid-trim_left s))))
      ∙ trim_right-concat (trim_right (trim_left s))
