-- ===== src/Name/Normal.antt =====
-- The spelling of a name that normalizeDomain (cache.go) returns.
use elchi_gslb.Prelude.{
  ◌≡◌, refl, ap, sym, ◌∙◌, true, false, ◌++◌, list_eq, nat_eq, if◌then◌else◌, Bool-cases, inl, inr,
}
use mathlib.Core.List.{map-append}
use elchi_gslb.Text.{Text, to_lower, to_upper, trim_space, has_suffix, lower_char, is_space}
use elchi_gslb.Text.Laws.{
  to_lower_idem, to_lower-to_upper, trim_space-to_lower, trim_space-to_upper,
}
use elchi_gslb.Text.Trim.{trim_space_idem, trim_space-concat}
use elchi_gslb.Text.Suffix.{has_suffix-append}
use elchi_gslb.Name.{dot, normalize_domain}

-- The spelling under which the cache keeps a name: no blank at either end, no capital letter, and a
-- final dot.
pub record IsCanonical (d : Text) : Type 0 where
  pub trimmed : trim_space d ≡ d
  pub lowered : to_lower d ≡ d
  pub rooted : has_suffix d dot ≡ true

normalize_domain_lem :
    (d : Text)
    → normalize_domain d ≡ (
        if has_suffix (to_lower (trim_space d)) dot
        then to_lower (trim_space d)
        else to_lower (trim_space d) ++ dot)
unfolding normalize_domain
normalize_domain_lem d = refl

dot_solid : is_space b'.' ≡ false
unfolding is_space
dot_solid = refl

trim_space-dot : (n : Text) → trim_space n ≡ n → trim_space (n ++ dot) ≡ n ++ dot
trim_space-dot n t = rw t at (trim_space-concat b'.' dot_solid n)

to_lower-dot : (n : Text) → to_lower n ≡ n → to_lower (n ++ dot) ≡ n ++ dot
unfolding lower_char
to_lower-dot n l = map-append lower_char n dot ∙ ap (λ (m : Text). m ++ dot) l

with_dot-IsCanonical :
    (n : Text)
    → trim_space n ≡ n
    → to_lower n ≡ n
    → IsCanonical (if has_suffix n dot then n else n ++ dot)
with_dot-IsCanonical n t l = elim (Bool-cases (has_suffix n dot)) [
  | inl ends ↦ rw ends (record { trimmed = t; lowered = l; rooted = ends })
  | inr bare ↦ rw bare (record {
    trimmed = trim_space-dot n t;
    lowered = to_lower-dot n l;
    rooted = has_suffix-append n dot;
  })
]

-- Whatever the text, its normal form has no blank at either end and no capital letter, and ends
-- with a dot.
pub normalize_domain-IsCanonical : (d : Text) → IsCanonical (normalize_domain d)
normalize_domain-IsCanonical d = rw (normalize_domain_lem d) (
    with_dot-IsCanonical (to_lower (trim_space d))
      (trim_space-to_lower (trim_space d) ∙ ap to_lower (trim_space_idem d))
      (to_lower_idem (trim_space d)))

-- A canonical name is its own normal form.
pub normalize_domain_of_IsCanonical : (d : Text) → IsCanonical d → normalize_domain d ≡ d
normalize_domain_of_IsCanonical d c = normalize_domain_lem d ∙ rw (c.trimmed, c.lowered, c.rooted)

-- Normalizing a name twice gives what normalizing it once gives.
normalize_domain_idem : (d : Text) → normalize_domain (normalize_domain d) ≡ normalize_domain d
normalize_domain_idem d =
    normalize_domain_of_IsCanonical (normalize_domain d) (normalize_domain-IsCanonical d)

-- Names that differ only in the case of their letters have one normal form.
normalize_domain-to_upper : (d : Text) → normalize_domain (to_upper d) ≡ normalize_domain d
normalize_domain-to_upper d =
    let e : to_lower (trim_space (to_upper d)) ≡ to_lower (trim_space d) =
      ap to_lower (trim_space-to_upper d) ∙ to_lower-to_upper (trim_space d) in
    normalize_domain_lem (to_upper d) ∙ rw e (sym (normalize_domain_lem d))
