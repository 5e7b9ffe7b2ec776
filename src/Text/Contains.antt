-- ===== src/Text/Contains.antt =====
-- What the test on a text within another decides.
use elchi_gslb.Prelude.{
  ◌≡◌, ap, refl, true, [], ◌∷◌, ◌++◌, list_eq, nat_eq, arith, Bool-cases, inl, inr, ◌↔◌,
}
use elchi_gslb.Text.{Text, has_prefix, contains}

has_prefix-append : (t q : Text) → has_prefix (t ++ q) t ≡ true
unfolding has_prefix
has_prefix-append [] [] = refl
has_prefix-append [] (c ∷ q) = refl
has_prefix-append (d ∷ t) q = ground (arith, has_prefix-append t q)

has_prefix_sound : (s t : Text) → has_prefix s t ≡ true → (q : Text) × (s ≡ t ++ q)
unfolding has_prefix
has_prefix_sound s [] h = (s, refl)
has_prefix_sound [] (d ∷ t) h = ground arith
has_prefix_sound (c ∷ s) (d ∷ t) h =
    let same : c ≡ d = ground arith in let (q, e) = has_prefix_sound s t (ground arith) in (q, cc)

contains_prefix : (s t : Text) → has_prefix s t ≡ true → contains s t ≡ true
unfolding contains
contains_prefix [] t h = h
contains_prefix (c ∷ s) t h = ground arith

contains-append : (p t q : Text) → contains (p ++ (t ++ q)) t ≡ true
unfolding contains
contains-append [] t q = contains_prefix (t ++ q) t (has_prefix-append t q)
contains-append (c ∷ p) t q = ground (arith, contains-append p t q)

contains_sound : (s t : Text) → contains s t ≡ true → (p : Text) × (q : Text) × (s ≡ p ++ (t ++ q))
unfolding contains
contains_sound [] t h = let (q, e) = has_prefix_sound [] t h in ([], q, e)
contains_sound (c ∷ s) t h = elim (Bool-cases (has_prefix (c ∷ s) t)) [
  | inl here ↦ let (q, e) = has_prefix_sound (c ∷ s) t here in ([], q, e)
  | inr later ↦
      let (p, q, e) = contains_sound s t (rw later at h) in (c ∷ p, q, ap (λ (r : Text). c ∷ r) e)
]

-- A text contains another exactly when it is that one between two texts.
pub contains_iff :
    (s t : Text) → (contains s t ≡ true) ↔ ((p : Text) × (q : Text) × (s ≡ p ++ (t ++ q)))
contains_iff s t = (contains_sound s t, λ (p, q, e). rw e (contains-append p t q))
