-- ===== src/Record/Build/Fails.antt =====
-- When buildDNSRecords (cache.go) fails.
use elchi_gslb.Prelude.{
  ℕ, ◌≡◌, ◌≢◌, refl, Bool, true, false, List, [], ◌∷◌, ◌==◌, Option, none, ◌⊎◌, All, list_eq,
  nat_eq, list_eqb_iff, is_empty, is_empty_iff, if◌then◌else◌, arith, Bool-cases, inl, inr, ◌↔◌,
}
use elchi_gslb.Text.{Text, text, to_upper}
use elchi_gslb.Ip.{Ip}
use elchi_gslb.Name.{normalize_domain}
use elchi_gslb.Record.{DnsRecord, Rr, type_a, type_aaaa, record_type_aaaa}
use elchi_gslb.Record.Build.{
  Built, ok, err, effective_ttl, v4_of, v6_of, append_rrs, some_valid, build_failover,
  build_addresses, build_dns_records, hdr,
}

append_rrs-eq-nil_iff :
    (read : Text → Option Ip) (rr : Ip → Rr) (ips : List Text)
    → (append_rrs read rr ips ≡ []) ↔ All (λ s. read s ≡ none) ips
unfolding append_rrs
append_rrs-eq-nil_iff read rr [] = ground arith
append_rrs-eq-nil_iff read rr (s ∷ ips) = ground (arith, append_rrs-eq-nil_iff read rr ips)

abbrev pub is_err : Built → Bool
is_err (ok rrs) = false
is_err (err e) = true

is_err-some_valid_iff :
    (r : DnsRecord) (rrs : List Rr) → (is_err (some_valid r rrs) ≡ true) ↔ (rrs ≡ [])
is_err-some_valid_iff r [] = ground arith
is_err-some_valid_iff r (rr ∷ rrs) = ground arith

is_err-failover :
    (r : DnsRecord) (name : Text) (ttl : ℕ) → is_err (build_failover r name ttl) ≡ false
unfolding build_failover
is_err-failover r name ttl = ground arith

-- The three ways in which no address can be used.
abbrev pub NoneUsable : DnsRecord → Type 0
NoneUsable r =
    ((to_upper r.type ≢ text "A") × (to_upper r.type ≢ record_type_aaaa))
    ⊎ ((to_upper r.type ≡ text "A") × All (λ s. v4_of s ≡ none) r.ips)
    ⊎ ((to_upper r.type ≡ record_type_aaaa) × All (λ s. v6_of s ≡ none) r.ips)

iff_trans {ℓ κ μ} : {A : Type ℓ} {B : Type κ} {C : Type μ} → A ↔ B → B ↔ C → A ↔ C
iff_trans f g = (λ a. g.0 (f.0 a), λ c. f.1 (g.1 c))

-- A branch on two tests, read as statements.
two_tests_iff {ℓ} :
    {T U V W : Type ℓ} (t u v w : Bool)
    → (t ≡ true) ↔ T
    → (u ≡ true) ↔ U
    → (v ≡ true) ↔ V
    → (w ≡ true) ↔ W
    → (T → ¬ U)
    → ((if t then v else if u then w else true) ≡ true) ↔ (((¬ T) × (¬ U)) ⊎ (T × V) ⊎ (U × W))
two_tests_iff true u v w ht hu hv hw apart = (
  λ e. inr (inl (ht.0 refl, hv.0 e)),
  λ d. elim d [
    | inl (nt, nu) ↦ absurd (nt (ht.0 refl))
    | inr (inl (t, y)) ↦ hv.1 y
    | inr (inr (y, z)) ↦ absurd (apart (ht.0 refl) y)
  ],
)
two_tests_iff false true v w ht hu hv hw apart = (
  λ e. inr (inr (hu.0 refl, hw.0 e)),
  λ d. elim d [
    | inl (nt, nu) ↦ absurd (nu (hu.0 refl))
    | inr (inl (t, y)) ↦ absurd (apart t (hu.0 refl))
    | inr (inr (y, z)) ↦ hw.1 z
  ],
)
two_tests_iff false false v w ht hu hv hw apart =
    (λ _. inl (λ t. cc (ht.1 t), λ u. cc (hu.1 u)), λ _. refl)

a_not_aaaa : (t : Text) → t ≡ text "A" → t ≢ record_type_aaaa
a_not_aaaa t p q = cc

is_err-addresses :
    (r : DnsRecord) (name : Text) (ttl : ℕ)
    → is_err (build_addresses r name ttl) ≡ (
        if to_upper r.type == text "A"
        then is_err (some_valid r (append_rrs v4_of (Rr.a (hdr name type_a ttl)) r.ips))
        else if to_upper r.type == record_type_aaaa
        then is_err (some_valid r (append_rrs v6_of (Rr.aaaa (hdr name type_aaaa ttl)) r.ips))
        else true)
unfolding build_addresses
is_err-addresses r name ttl = ground arith

is_err-addresses_iff :
    (r : DnsRecord) (name : Text) (ttl : ℕ)
    → (is_err (build_addresses r name ttl) ≡ true) ↔ NoneUsable r
is_err-addresses_iff r name ttl = rw is_err-addresses (
    two_tests_iff _ _ _ _ (list_eqb_iff (to_upper r.type) (text "A"))
      (list_eqb_iff (to_upper r.type) record_type_aaaa)
      (iff_trans (is_err-some_valid_iff r _) (append_rrs-eq-nil_iff v4_of _ r.ips))
      (iff_trans (is_err-some_valid_iff r _) (append_rrs-eq-nil_iff v6_of _ r.ips))
      (a_not_aaaa (to_upper r.type)))

build_dns_records_lem :
    (r : DnsRecord) (default_ttl : ℕ)
    → build_dns_records r default_ttl ≡ (
        if is_empty r.ips
        then build_failover r (normalize_domain r.name) (effective_ttl r.ttl default_ttl)
        else build_addresses r (normalize_domain r.name) (effective_ttl r.ttl default_ttl))
unfolding build_dns_records
build_dns_records_lem r default_ttl = refl

-- Building fails exactly for the records that list addresses, none of which can be used: the type
-- is neither A nor AAAA in any case of its letters, or no address is one of the record's type.
pub build_dns_records-fails_iff :
    (r : DnsRecord) (default_ttl : ℕ)
    → (is_err (build_dns_records r default_ttl) ≡ true) ↔ ((r.ips ≢ []) × NoneUsable r)
build_dns_records-fails_iff r default_ttl =
    let inner =
      is_err-addresses_iff r (normalize_domain r.name) (effective_ttl r.ttl default_ttl) in
    elim (Bool-cases (is_empty r.ips)) [
      | inl empty ↦
          rw (build_dns_records_lem r default_ttl, empty)
            (
              λ e.
                  cc
                    (is_err-failover r (normalize_domain r.name) (effective_ttl r.ttl default_ttl)),
              λ u. absurd (u.0 ((is_empty_iff r.ips).0 empty)),
            )
      | inr given ↦
          rw (build_dns_records_lem r default_ttl, given)
            (λ e. (λ p. cc ((is_empty_iff r.ips).1 p), inner.0 e), λ u. inner.1 u.1)
    ]
