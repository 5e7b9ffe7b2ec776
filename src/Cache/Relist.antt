-- ===== src/Cache/Relist.antt =====
-- What GetAllRecords (cache.go) lists of addresses, when buildDNSRecords builds it again.
use elchi_gslb.Prelude.{
  ℕ, ◌≡◌, ◌≢◌, refl, ap, false, List, [], ◌∷◌, ◌++◌, some, ◌==◌, nat_eq, list_eq, nat_eqb,
  nat_eqb_iff, list_eqb_iff, is_empty, list_eqb, All, arith,
}
use elchi_gslb.Text.{Text, trim_suffix, upper_char}
use elchi_gslb.Name.{normalize_domain, dot}
use elchi_gslb.Record.{Rr, type_a}
use elchi_gslb.Ip.{ip_string, to_4}
use elchi_gslb.Ip.Round.{IsV4, parse_ip-ip_string}
use elchi_gslb.Record.Build.{
  hdr, ok, v4_of, append_rrs, build_dns_records, build_addresses, effective_ttl,
}
use elchi_gslb.Record.Build.Laws.{built_type}
use elchi_gslb.Cache.{listed, listed_ips, last_ttl}

-- An address record of a name, with a TTL.
pub data IsAddress (name : Text) (ttl : ℕ) : Rr → Type 0 where
  address :
      (a b c d : ℕ)
      → IsV4 a b c d
      → IsAddress name ttl (Rr.a (hdr name type_a ttl) (a ∷ b ∷ c ∷ d ∷ []))

v4_of-ip_string :
    (a b c d : ℕ)
    → IsV4 a b c d
    → v4_of (ip_string (a ∷ b ∷ c ∷ d ∷ [])) ≡ some (a ∷ b ∷ c ∷ d ∷ [])
unfolding v4_of to_4
v4_of-ip_string a b c d h = rw (v4_of, parse_ip-ip_string a b c d h) refl

module _ (name : Text) (ttl : ℕ) where
  reads_listed :
      (rrs : List Rr)
      → All (IsAddress name ttl) rrs
      → append_rrs v4_of (Rr.a (hdr name type_a ttl)) (listed_ips rrs) ≡ rrs
  unfolding append_rrs listed_ips
  reads_listed [] h = refl
  reads_listed (_ ∷ rrs) (address a b c d v, hs) = rw (v4_of-ip_string a b c d v) (
      ap (λ (l : List Rr). Rr.a (hdr name type_a ttl) (a ∷ b ∷ c ∷ d ∷ []) ∷ l)
        (reads_listed rrs hs))

  last_ttl-same :
      (first : ℕ) (rr : Rr) (rrs : List Rr)
      → All (IsAddress name ttl) (rr ∷ rrs)
      → last_ttl first (rr ∷ rrs) ≡ ttl
  unfolding last_ttl
  last_ttl-same first _ [] (address a b c d v, hs) = refl
  last_ttl-same first _ (rr ∷ rrs) (address a b c d v, hs) = last_ttl-same ttl rr rrs hs

append_dot-ne-nil : (name : Text) → name ++ dot ≢ []
append_dot-ne-nil [] e = cc
append_dot-ne-nil (c ∷ name) e = cc

listed_ips-some :
    (name : Text) (ttl : ℕ) (rr : Rr) (rrs : List Rr)
    → IsAddress name ttl rr
    → is_empty (listed_ips (rr ∷ rrs)) ≡ false
unfolding listed_ips
listed_ips-some name ttl _ rrs (address a b c d v) = refl

pub trim_suffix-dot : (name : Text) → trim_suffix (name ++ dot) dot ≡ name
unfolding trim_suffix
trim_suffix-dot [] = refl
trim_suffix-dot (c ∷ name) =
    let longer : (c ∷ (name ++ dot) == dot) ≡ false =
      ground (arith, append_dot-ne-nil name, list_eqb_iff (name ++ dot) []) in
    rw longer (ap (λ (n : Text). c ∷ n) (trim_suffix-dot name))

-- What GetAllRecords lists of address records of one name and TTL, buildDNSRecords builds again as
-- they were: their addresses are printed and read, their name loses its dot and gets it back, and their
-- TTL is taken over. The name must be one that is normalized but for the dot, and the TTL not zero.
pub build_dns_records-listed :
    (name : Text) (ttl default_ttl : ℕ) (rr : Rr) (rrs : List Rr)
    → normalize_domain name ≡ name ++ dot
    → ttl ≢ 0
    → All (IsAddress (name ++ dot) ttl) (rr ∷ rrs)
    → build_dns_records (listed (name ++ dot) type_a (rr ∷ rrs)) default_ttl ≡ ok (rr ∷ rrs)
unfolding build_dns_records build_addresses listed effective_ttl
build_dns_records-listed name ttl default_ttl rr rrs spelled given h =
    let set : nat_eqb ttl 0 ≡ false = ground (arith, nat_eqb_iff ttl 0) in
    rw
      (
        trim_suffix-dot name,
        spelled,
        last_ttl-same (name ++ dot) ttl 0 rr rrs h,
        set,
        listed_ips-some (name ++ dot) ttl rr rrs h.0,
        reads_listed (name ++ dot) ttl (rr ∷ rrs) h,
      )
      refl

pub listed-name : (name : Text) (rrs : List Rr) → (listed (name ++ dot) type_a rrs).name ≡ name
unfolding listed
listed-name name rrs = trim_suffix-dot name

pub listed-type :
    (name : Text) (ttl : ℕ) (rr : Rr) (rrs : List Rr)
    → IsAddress (name ++ dot) ttl rr
    → built_type (listed (name ++ dot) type_a (rr ∷ rrs)) ≡ type_a
unfolding listed list_eqb upper_char
listed-type name ttl rr rrs h = rw (listed_ips-some (name ++ dot) ttl rr rrs h) refl
