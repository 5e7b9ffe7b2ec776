-- ===== src/Cache/Domains.antt =====
-- DomainCount (cache.go) counts the domains that queries get anything of.
use mathlib.Core.List.{Memᴰ}
use mathlib.Core.List.Memᴰ.{head, tail, not-nil}
use elchi_gslb.Prelude.{
  ℕ, suc, ◌≡◌, refl, ap, sym, ◌∙◌, List, [], ◌∷◌, some, ◌↔◌, ◌==◌, list_eq, nat_eq, lookup,
  HasKeysOnce, Bool-cases, Option-cases, inl, inr, eqb_refl, list_eqb_iff, length, Once,
}
use elchi_gslb.Text.{Text}
use elchi_gslb.Name.{normalize_domain}
use elchi_gslb.Name.Normal.{normalize_domain_of_IsCanonical}
use elchi_gslb.Record.{Rr}
use elchi_gslb.Cache.Nested.{Table, QtypeMap}
use elchi_gslb.Cache.{RecordCache, get, domain_count}
use elchi_gslb.Cache.Entries.{entry_lem, lookup-nil}
use elchi_gslb.Cache.Keys.{IsKeyed}
use elchi_gslb.Cache.Replace.{get-eq-entry}
use elchi_gslb.Cache.Valid.{IsValid}

abbrev domains : Table → List Text
domains [] = []
domains ((d, m) ∷ t) = d ∷ domains t

length-domains : (t : Table) → length (domains t) ≡ length t
length-domains [] = refl
length-domains (e ∷ t) = ap suc (length-domains t)

domains-lookup :
    (d : Text) (t : Table) → Memᴰ d (domains t) → (m : QtypeMap) × (lookup d t ≡ some m)
unfolding lookup
domains-lookup d [] h = absurd (not-nil h)
domains-lookup d ((k, m) ∷ t) (head e) = (m, rw (e, eqb_refl k) refl)
domains-lookup d ((k, m) ∷ t) (tail h) = elim (Bool-cases (k == d)) [
  | inl same ↦ (m, rw same refl)
  | inr other ↦ rw other (domains-lookup d t h)
]

lookup-domains : (d : Text) (m : QtypeMap) (t : Table) → lookup d t ≡ some m → Memᴰ d (domains t)
unfolding lookup
lookup-domains d m [] h = absurd (cc h)
lookup-domains d m ((k, n) ∷ t) h = elim (Bool-cases (k == d)) [
  | inl same ↦ head (sym ((list_eqb_iff k d).0 same))
  | inr other ↦ tail (lookup-domains d m t (rw other at h))
]

Once-domains : (t : Table) → HasKeysOnce t → Once (domains t)
Once-domains [] h = tt
Once-domains ((k, m) ∷ t) (fresh, h) =
    (λ there. let (n, found) = domains-lookup k t there in cc (fresh, found), Once-domains t h)

-- A name as the cache has it, for which some query gets something.
abbrev pub IsAnswered : RecordCache → Text → Type 0
IsAnswered c d =
    (normalize_domain d ≡ d) × ((q : ℕ) × (rr : Rr) × (rrs : List Rr) × (get c d q ≡ rr ∷ rrs))

lookup-IsAnswered :
    (c : RecordCache) (d : Text) (m : QtypeMap)
    → IsValid c
    → lookup d c.records ≡ some m
    → IsAnswered c d
lookup-IsAnswered c d [] valid found = absurd ((valid.holds d [] found).filled refl)
lookup-IsAnswered c d ((q, []) ∷ m) valid found = absurd (
    ((valid.holds d ((q, []) ∷ m) found).entries q [] (unfold lookup in rw (eqb_refl q) refl)).0
      refl)
lookup-IsAnswered c d ((q, rr ∷ rrs) ∷ m) valid found =
    let spelled : normalize_domain d ≡ d =
      normalize_domain_of_IsCanonical d (valid.holds d ((q, rr ∷ rrs) ∷ m) found).canonical in
    let first : lookup q ((q, rr ∷ rrs) ∷ m) ≡ some (rr ∷ rrs) =
      unfold lookup in rw (eqb_refl q) refl in
    (
      spelled,
      (q, rr, rrs, get-eq-entry c d q ∙ rw (spelled, entry_lem c.records d q, found, first) refl),
    )

IsAnswered-lookup :
    (c : RecordCache) (d : Text) → IsAnswered c d → (m : QtypeMap) × (lookup d c.records ≡ some m)
IsAnswered-lookup c d (spelled, (q, rr, rrs, given)) = elim (Option-cases (lookup d c.records)) [
  | inl missing ↦
      let nothing : get c d q ≡ [] =
        get-eq-entry c d q ∙ rw (spelled, entry_lem c.records d q, missing, lookup-nil q) refl in
      absurd (cc (given, nothing))
  | inr found ↦ found
]

-- The count is the length of a list in which each such name stands once, and no other name.
pub domain_count_exact :
    (c : RecordCache)
    → IsValid c
    → IsKeyed c.records
    → (ds : List Text) × (length ds ≡ domain_count c)
      × Once ds
      × ((d : Text) → Memᴰ d ds ↔ IsAnswered c d)
unfolding domain_count
domain_count_exact c valid keyed = (
  domains c.records,
  length-domains c.records,
  Once-domains c.records keyed.domains,
  λ d. (
    λ h. let (m, found) = domains-lookup d c.records h in lookup-IsAnswered c d m valid found,
    λ a. let (m, found) = IsAnswered-lookup c d a in lookup-domains d m c.records found,
  ),
)
