-- ===== src/Record/Build.antt =====
-- buildDNSRecords (cache.go): the resource records that a record of the API stands for.
pub mod Laws
pub mod Fails
use elchi_gslb.Prelude.{
  ℕ, Bool, true, false, List, [], ◌∷◌, Option, none, some, ◌==◌, nat_eq, list_eq, list_eqb,
  is_empty, not, if◌then◌else◌,
}
use elchi_gslb.Text.{Text, text, to_upper, upper_char}
use elchi_gslb.Ip.{Ip, parse_ip, to_4}
use elchi_gslb.Name.{normalize_domain}
use elchi_gslb.Record.{
  DnsRecord, RrHeader, Rr, type_a, type_aaaa, type_cname, class_inet, record_type_aaaa,
}

-- The two errors, with the text that each reports.
pub data BuildError : Type 0 where
  unsupported_type : Text → BuildError
  no_valid_ips : Text → BuildError

pub data Built : Type 0 where
  ok : List Rr → Built
  err : BuildError → Built

-- The record's TTL if it is set, the default otherwise.
unfoldable pub effective_ttl : ℕ → ℕ → ℕ
effective_ttl ttl default_ttl = if ttl == 0 then default_ttl else ttl

-- A round of the loop over the addresses of an A record: `none` where it goes on to the next.
unfoldable pub v4_of : Text → Option Ip
v4_of ip_str = elim (parse_ip ip_str) [ none ↦ none | some ip ↦ to_4 ip ]

-- The same for an AAAA record, which skips what has an IPv4 form.
unfoldable pub v6_of : Text → Option Ip
v6_of ip_str = elim (parse_ip ip_str) [
  | none ↦ none
  | some ip ↦ elim (to_4 ip) [ none ↦ some ip | some _ ↦ none ]
]

-- `continue`, or `rrs = append(rrs, rr)`.
abbrev push_rr : (Ip → Rr) → Option Ip → List Rr → List Rr
push_rr rr none rest = rest
push_rr rr (some ip) rest = rr ip ∷ rest

-- The loop over the addresses.
unfoldable pub append_rrs : (Text → Option Ip) → (Ip → Rr) → List Text → List Rr
append_rrs read rr [] = []
append_rrs read rr (ip_str ∷ ips) = push_rr rr (read ip_str) (append_rrs read rr ips)

abbrev pub hdr : Text → ℕ → ℕ → RrHeader
hdr name rrtype ttl = record { name = name; rrtype = rrtype; class = class_inet; ttl = ttl }

-- What is behind the two loops.
abbrev pub some_valid : DnsRecord → List Rr → Built
some_valid r [] = err (no_valid_ips r.name)
some_valid r (rr ∷ rrs) = ok (rr ∷ rrs)

-- No addresses: the failover's CNAME, or nothing where there is no failover.
unfoldable pub build_failover : DnsRecord → Text → ℕ → Built
unfolding list_eqb
build_failover r name ttl =
    if not (r.failover == [])
    then ok (Rr.cname (hdr name type_cname ttl) (normalize_domain r.failover) ∷ [])
    else ok []

unfoldable pub build_addresses : DnsRecord → Text → ℕ → Built
unfolding append_rrs list_eqb upper_char
build_addresses r name ttl =
    if to_upper r.type == text "A"
    then some_valid r (append_rrs v4_of (Rr.a (hdr name type_a ttl)) r.ips)
    else if to_upper r.type == record_type_aaaa
    then some_valid r (append_rrs v6_of (Rr.aaaa (hdr name type_aaaa ttl)) r.ips)
    else err (unsupported_type r.type)

unfoldable pub build_dns_records : DnsRecord → ℕ → Built
unfolding build_failover build_addresses effective_ttl
build_dns_records r default_ttl =
    let name = normalize_domain r.name in
    let ttl = effective_ttl r.ttl default_ttl in
    if is_empty r.ips then build_failover r name ttl else build_addresses r name ttl
