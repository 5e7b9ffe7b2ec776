-- ===== src/Record/Build/Laws.antt =====
-- What buildDNSRecords (cache.go) makes of a record: the shape of its results.
use elchi_gslb.Prelude.{
  ℕ, ◌≡◌, refl, subst, List, [], ◌∷◌, ◌==◌, Option, none, some, All, list_eq, nat_eq, is_empty,
  if◌then◌else◌, Bool-cases, inl, inr, sym, arith,
}
use elchi_gslb.Text.{Text, text, to_upper}
use elchi_gslb.Ip.{Ip}
use elchi_gslb.Name.{normalize_domain}
use elchi_gslb.Record.{
  DnsRecord, Rr, header, type_a, type_aaaa, type_cname, class_inet, record_type_aaaa,
}
use elchi_gslb.Record.Build.{
  Built, ok, err, effective_ttl, v4_of, v6_of, push_rr, append_rrs, some_valid, build_failover,
  build_addresses, build_dns_records, hdr,
}

-- The type of the query that a record answers.
abbrev pub kind : Rr → ℕ
kind (Rr.a h ip) = type_a
kind (Rr.aaaa h ip) = type_aaaa
kind (Rr.cname h target) = type_cname

-- A resource record for a name, of one type and TTL, as the dns package wants it: the type in the
-- header is that of the data.
pub record IsOf (domain : Text) (qtype ttl : ℕ) (rr : Rr) : Type 0 where
  pub name : (header rr).name ≡ domain
  pub rrtype : (header rr).rrtype ≡ qtype
  pub kind : kind rr ≡ qtype
  pub class : (header rr).class ≡ class_inet
  pub ttl_set : (header rr).ttl ≡ ttl

-- The query type under which buildDNSRecords files a record.
abbrev pub built_type : DnsRecord → ℕ
built_type r =
    if is_empty r.ips then type_cname else if to_upper r.type == text "A" then type_a else type_aaaa

-- What holds of the records of a success.
abbrev pub OnOk {ℓ} : (Rr → Type ℓ) → Built → Type ℓ
OnOk P (ok rrs) = All P rrs
OnOk P (err e) = Unit

module _ {ℓ} (P : Rr → Type ℓ) where
  OnOk-some_valid : (r : DnsRecord) (rrs : List Rr) → All P rrs → OnOk P (some_valid r rrs)
  OnOk-some_valid r [] h = tt
  OnOk-some_valid r (rr ∷ rrs) h = h

  module _ (rr : Ip → Rr) (each : (ip : Ip) → P (rr ip)) where
    push_rr-All : (o : Option Ip) (rest : List Rr) → All P rest → All P (push_rr rr o rest)
    push_rr-All none rest h = h
    push_rr-All (some ip) rest h = (each ip, h)

    append_rrs-All : (read : Text → Option Ip) (ips : List Text) → All P (append_rrs read rr ips)
    unfolding append_rrs
    append_rrs-All read [] = tt
    append_rrs-All read (s ∷ ips) =
        push_rr-All (read s) (append_rrs read rr ips) (append_rrs-All read ips)

IsOf-hdr : (name : Text) (ttl : ℕ) (ip : Ip) → IsOf name type_a ttl (Rr.a (hdr name type_a ttl) ip)
IsOf-hdr name ttl ip = record {
  name = refl;
  rrtype = refl;
  kind = refl;
  class = refl;
  ttl_set = refl;
}

IsOf-hdr6 :
    (name : Text) (ttl : ℕ) (ip : Ip)
    → IsOf name type_aaaa ttl (Rr.aaaa (hdr name type_aaaa ttl) ip)
IsOf-hdr6 name ttl ip = record {
  name = refl;
  rrtype = refl;
  kind = refl;
  class = refl;
  ttl_set = refl;
}

cname_hdr :
    (name target : Text) (ttl : ℕ)
    → IsOf name type_cname ttl (Rr.cname (hdr name type_cname ttl) target)
cname_hdr name target ttl = record {
  name = refl;
  rrtype = refl;
  kind = refl;
  class = refl;
  ttl_set = refl;
}

module _ (r : DnsRecord) (name : Text) (ttl : ℕ) where
  failover-OnOk : OnOk (IsOf name type_cname ttl) (build_failover r name ttl)
  unfolding build_failover
  failover-OnOk = elim (Bool-cases (r.failover == [])) [
    | inl absent ↦ rw absent tt
    | inr given ↦ rw given (cname_hdr name (normalize_domain r.failover) ttl, tt)
  ]

  addresses-OnOk :
      OnOk
        (IsOf name (if to_upper r.type == text "A" then type_a else type_aaaa) ttl)
        (build_addresses r name ttl)
  unfolding build_addresses
  addresses-OnOk = elim (Bool-cases (to_upper r.type == text "A")) [
    | inl v4 ↦ rw v4 (OnOk-some_valid _ r _ (append_rrs-All _ _ (IsOf-hdr name ttl) v4_of r.ips))
    | inr other ↦ rw other (elim (Bool-cases (to_upper r.type == record_type_aaaa)) [
      | inl v6 ↦ rw v6 (OnOk-some_valid _ r _ (append_rrs-All _ _ (IsOf-hdr6 name ttl) v6_of r.ips))
      | inr unknown ↦ rw unknown tt
    ])
  ]

-- What a record is filed under, and its TTL: its own, and the default where that is zero.
abbrev pub IsBuiltFrom : DnsRecord → ℕ → Rr → Type 0
IsBuiltFrom r default_ttl =
    IsOf (normalize_domain r.name) (built_type r) (if r.ttl == 0 then default_ttl else r.ttl)

module _ (r : DnsRecord) (default_ttl : ℕ) where
  effective_ttl_lem : effective_ttl r.ttl default_ttl ≡ (if r.ttl == 0 then default_ttl else r.ttl)
  unfolding effective_ttl
  effective_ttl_lem = ground arith

  pub build-OnOk : OnOk (IsBuiltFrom r default_ttl) (build_dns_records r default_ttl)
  build-OnOk = elim (Bool-cases (is_empty r.ips)) [
    | inl empty ↦
        unfold build_dns_records in
        rw (empty, sym effective_ttl_lem)
          (failover-OnOk r (normalize_domain r.name) (effective_ttl r.ttl default_ttl))
    | inr given ↦
        unfold build_dns_records in
        rw (given, sym effective_ttl_lem)
          (addresses-OnOk r (normalize_domain r.name) (effective_ttl r.ttl default_ttl))
  ]

  -- Every resource record that is built has the normalized name, the record's TTL, or the default where
  -- that is zero, and one query type, which is also that of its data: CNAME where the record lists no
  -- addresses; otherwise A where its type is A in any case, and AAAA where it is not.
  pub build_dns_records-IsBuiltFrom :
      (rrs : List Rr)
      → build_dns_records r default_ttl ≡ ok rrs
      → All (IsBuiltFrom r default_ttl) rrs
  build_dns_records-IsBuiltFrom rrs h = subst (OnOk (IsBuiltFrom r default_ttl)) h build-OnOk
