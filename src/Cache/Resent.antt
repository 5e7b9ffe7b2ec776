-- ===== src/Cache/Resent.antt =====
-- The whole of what GetAllRecords (cache.go) lists, when Update takes it back.
use mathlib.Core.List.{Memᴰ}
use mathlib.Core.List.Memᴰ.{head, tail}
use elchi_gslb.Prelude.{
  ℕ, ◌≡◌, ◌≢◌, refl, ap, sym, subst, ◌∙◌, List, [], ◌∷◌, ◌++◌, ◌⊎◌, inl, inr, list_eq, nat_eq,
  lookup, AllPairs, AllPairs-Everywhere, All, is_empty, Option-cases, if◌then◌else◌, arith,
  list_eqb_iff, nat_eqb_iff,
}
use elchi_gslb.Text.{Text}
use elchi_gslb.Name.{normalize_domain, dot}
use elchi_gslb.Record.{DnsRecord, Rr, type_a, type_cname}
use elchi_gslb.Record.Build.{ok, build_dns_records, build_failover}
use elchi_gslb.Record.Build.Laws.{built_type}
use elchi_gslb.Cache.{RecordCache, get, update, listed, get_all_records}
use elchi_gslb.Cache.Nested.{Table, entry}
use elchi_gslb.Cache.Entries.{entry_lem, lookup-nil}
use elchi_gslb.Cache.Spec.{contribution, overridden}
use elchi_gslb.Cache.Exact.{get_all_records_iff}
use elchi_gslb.Cache.Invariant.{get-Fits}
use elchi_gslb.Cache.Keys.{IsKeyed}
use elchi_gslb.Cache.Listing.{listed_ips-cname}
use elchi_gslb.Cache.Merge.{get-update}
use elchi_gslb.Cache.Relist.{IsAddress, build_dns_records-listed, listed-name, listed-type}
use elchi_gslb.Cache.Replace.{get-eq-entry}
use elchi_gslb.Cache.Valid.{IsValid, Fits}

-- What a listing can carry: address records of one name and TTL, or a CNAME, which it does not show.
pub data IsCarried : Text → ℕ → List Rr → Type 0 where
  addresses :
      {rr : Rr} {rrs : List Rr} (name : Text) (ttl : ℕ)
      → normalize_domain name ≡ name ++ dot
      → ttl ≢ 0
      → All (IsAddress (name ++ dot) ttl) (rr ∷ rrs)
      → IsCarried (name ++ dot) type_a (rr ∷ rrs)
  failover : {d : Text} {rrs : List Rr} → IsCarried d type_cname rrs

either : (old : List Rr) → (if is_empty old then old else old) ≡ old
either [] = refl
either (rr ∷ rrs) = refl

-- Updates of which each gives nothing, or what is there, change nothing.
overridden-kept :
    (zone : Text) (ttl : ℕ) (d : Text) (q : ℕ) (rs : List DnsRecord) (old : List Rr)
    → ((r : DnsRecord)
        → Memᴰ r rs
        → (contribution zone ttl d q r ≡ []) ⊎ (contribution zone ttl d q r ≡ old))
    → overridden zone ttl d q rs old ≡ old
unfolding overridden
overridden-kept zone ttl d q [] old each = refl
overridden-kept zone ttl d q (r ∷ rs) old each =
    let kept : (if is_empty (contribution zone ttl d q r) then old else contribution zone ttl d q r)
        ≡ old =
      elim (each r (head refl)) [
        | inl nothing ↦ rw nothing refl
        | inr same ↦ rw same (either old)
      ] in
    rw kept (overridden-kept zone ttl d q rs old (λ s m. each s (tail m)))

-- What a record contributes, where it is known what is built of it.
contribution_cases :
    (zone : Text) (ttl : ℕ) (d : Text) (q : ℕ) (r : DnsRecord) (rrs old : List Rr)
    → build_dns_records r ttl ≡ ok rrs
    → (normalize_domain r.name ≡ d → built_type r ≡ q → rrs ≡ old)
    → (contribution zone ttl d q r ≡ []) ⊎ (contribution zone ttl d q r ≡ old)
unfolding contribution
contribution_cases zone ttl d q r rrs old built same =
    ground
      (arith, same, built, list_eqb_iff (normalize_domain r.name) d, nat_eqb_iff (built_type r) q)

-- The listing can carry everything that a map has.
abbrev pub IsListable : Table → Type 0
IsListable t = AllPairs (λ d m. AllPairs (IsCarried d) m) t

entry-IsCarried :
    (t : Table) (d : Text) (q : ℕ) (rr : Rr) (rrs : List Rr)
    → IsListable t
    → entry t d q ≡ rr ∷ rrs
    → IsCarried d q (rr ∷ rrs)
entry-IsCarried t d q rr rrs h there = elim (Option-cases (lookup d t)) [
  | inl missing ↦ absurd (cc (rw (entry_lem t d q, missing, lookup-nil q) at there))
  | inr (m, found) ↦ elim (Option-cases (lookup q m)) [
    | inl missing ↦ absurd (cc (rw (entry_lem t d q, found, missing) at there))
    | inr (v, got) ↦
        let value : v ≡ rr ∷ rrs = cc (rw (entry_lem t d q, found, got) at there) in
        subst (IsCarried d q) value (
          AllPairs-Everywhere (IsCarried d) m
            (AllPairs-Everywhere (λ d m. AllPairs (IsCarried d) m) t h d m found) q v got)
  ]
]

-- A CNAME is listed with nothing to build of it.
build_dns_records-failover :
    (d : Text) (rrs : List Rr) (ttl : ℕ)
    → All (Fits d type_cname) rrs
    → build_dns_records (listed d type_cname rrs) ttl ≡ ok []
unfolding build_dns_records build_failover listed
build_dns_records-failover d rrs ttl fits = rw (listed_ips-cname d rrs fits) refl

contribution-nil :
    (zone : Text) (ttl : ℕ) (d : Text) (q : ℕ) (r : DnsRecord)
    → build_dns_records r ttl ≡ ok []
    → contribution zone ttl d q r ≡ []
unfolding contribution
contribution-nil zone ttl d q r built = ground (arith, built)

module _ (c : RecordCache) where
  -- A record of the listing, when it is built again, gives nothing or what is there.
  resent_record :
      (default_ttl : ℕ) (d : Text) (q : ℕ) (rrs : List Rr) (qname : Text) (asked : ℕ)
      → IsCarried d q rrs
      → entry c.records d q ≡ rrs
      → All (Fits d q) rrs
      → (contribution c.zone default_ttl (normalize_domain qname) asked (listed d q rrs) ≡ [])
        ⊎ (contribution c.zone default_ttl (normalize_domain qname) asked (listed d q rrs)
            ≡ get c qname asked)
  resent_record default_ttl _ _ _ qname asked (addresses {rr} {rrs} name ttl spelled set h) there
        fits =
      contribution_cases c.zone default_ttl (normalize_domain qname) asked
        (listed (name ++ dot) type_a (rr ∷ rrs)) (rr ∷ rrs) (get c qname asked)
        (build_dns_records-listed name ttl default_ttl rr rrs spelled set h)
        (λ same_name same_type.
          let d : normalize_domain qname ≡ name ++ dot =
            sym same_name ∙ ap normalize_domain (listed-name name (rr ∷ rrs)) ∙ spelled in
          let t : asked ≡ type_a = sym same_type ∙ listed-type name ttl rr rrs h.0 in
          sym (get-eq-entry c qname asked ∙ rw (d, t) there))
  resent_record default_ttl _ _ _ qname asked (failover {d} {rrs}) there fits = inl (
      contribution-nil c.zone default_ttl (normalize_domain qname) asked (listed d type_cname rrs)
        (build_dns_records-failover d rrs default_ttl fits))

-- An update with everything that GetAllRecords lists changes no answer of a valid cache that has
-- nothing but A records, all those of one name with one TTL that is not zero, and CNAMEs, which are
-- listed with nothing to build of them, and whose names are normalized but for their final dot. A cache
-- that has an AAAA record, or two TTLs at one name, is not covered.
pub get-update-get_all_records :
    (c : RecordCache) (ttl now : ℕ) (qname : Text) (q : ℕ)
    → IsValid c
    → IsKeyed c.records
    → IsListable c.records
    → get (update c (get_all_records c) ttl now).0 qname q ≡ get c qname q
get-update-get_all_records c ttl now qname q valid keyed listable =
    (get-update c (get_all_records c) ttl now qname q).0
    ∙ overridden-kept c.zone ttl (normalize_domain qname) q (get_all_records c) (get c qname q)
        (λ r m.
          let (d, asked, rr, rrs, found, same) = (get_all_records_iff c r valid keyed).0 m in
          let there : entry c.records (normalize_domain d) asked ≡ rr ∷ rrs =
            sym (get-eq-entry c d asked) ∙ found in
          rw same (
            resent_record c ttl (normalize_domain d) asked (rr ∷ rrs) qname q
              (entry-IsCarried c.records (normalize_domain d) asked rr rrs listable there) there
              (subst (All (Fits (normalize_domain d) asked)) found (get-Fits c valid d asked))))
