-- ===== src/Text/Suffix.antt =====
-- What the tests on prefixes and suffixes decide.
use elchi_gslb.Prelude.{
  ◌≡◌, ap, true, [], ◌∷◌, ◌++◌, ◌==◌, list_eq, nat_eq, list_eqb_iff, arith, Bool-cases, inl, inr,
  eqb_refl, ◌↔◌,
}
use elchi_gslb.Text.{Text, has_suffix}

has_suffix_refl : (s : Text) → has_suffix s s ≡ true
unfolding has_suffix
has_suffix_refl [] = eqb_refl {A = Text} []
has_suffix_refl (c ∷ s) = ground (arith, eqb_refl {A = Text} (c ∷ s))

pub has_suffix-append : (p t : Text) → has_suffix (p ++ t) t ≡ true
unfolding has_suffix
has_suffix-append [] t = has_suffix_refl t
has_suffix-append (c ∷ p) t = ground (arith, has_suffix-append p t)

has_suffix_sound : (s t : Text) → has_suffix s t ≡ true → (p : Text) × (s ≡ p ++ t)
unfolding has_suffix
has_suffix_sound [] t h = ([], (list_eqb_iff [] t).0 h)
has_suffix_sound (c ∷ s) t h = elim (Bool-cases ((c ∷ s) == t)) [
  | inl same ↦ ([], (list_eqb_iff (c ∷ s) t).0 same)
  | inr other ↦
      let (p, e) = has_suffix_sound s t (rw other at h) in (c ∷ p, ap (λ (r : Text). c ∷ r) e)
]

-- A text has a suffix exactly when it is some text followed by the suffix.
pub has_suffix_iff : (s t : Text) → (has_suffix s t ≡ true) ↔ ((p : Text) × (s ≡ p ++ t))
has_suffix_iff s t = (has_suffix_sound s t, λ (p, e). rw e (has_suffix-append p t))
