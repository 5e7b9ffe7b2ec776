-- ===== src/Serve/Answers.antt =====
-- What ServeDNS (elchi.go) answers.
use elchi_gslb.Prelude.{
  ℕ, ◌≡◌, ◌≢◌, refl, Bool, true, false, not, ◌||◌, List, [], ◌∷◌, ◌==◌, none, some, ◌⊎◌, All,
  list_eq, nat_eq, list_eqb_iff, is_empty, is_empty_iff, if◌then◌else◌, arith, Bool-cases, inl, inr,
  ◌↔◌,
}
use elchi_gslb.Name.{normalize_domain}
use elchi_gslb.Record.{Rr, type_a, type_aaaa, type_cname}
use elchi_gslb.Cache.{RecordCache, get}
use elchi_gslb.Cache.Valid.{Fits}
use elchi_gslb.Plugin.{Elchi}
use elchi_gslb.Serve.{
  Dns, Query, Msg, Outcome, next_or_failure, written, rcode_success, rcode_name_error, lookup_rrs,
  serve_dns, reply,
}

-- The query types that the plugin answers.
abbrev pub is_served : ℕ → Bool
is_served qtype = qtype == type_a || qtype == type_aaaa || qtype == type_cname

-- What a cache has for a query: the failover's CNAME before any address.
abbrev pub best : RecordCache → Query → List Rr
best c q =
    if is_empty (get c q.name type_cname) then get c q.name q.qtype else get c q.name type_cname

lookup_rrs-eq-best :
    (c : RecordCache) (q : Query)
    → lookup_rrs c c q.name q.qtype ≡ (if is_served q.qtype then some (best c q) else none)
unfolding lookup_rrs
lookup_rrs-eq-best c q = ground arith

module _ (dns : Dns) where
  pub reply_cases :
      (e : Elchi) (q : Query) (rrs : List Rr)
      → ((reply dns e q (some rrs)).1 ≡ (
          if not (is_empty rrs)
          then written
              (record { rcode = rcode_success; authoritative = true; answer = rrs })
              rcode_success
          else if dns.fall_through q.name
          then next_or_failure
          else written
              (record { rcode = rcode_name_error; authoritative = true; answer = [] })
              rcode_name_error))
        × ((reply dns e q (some rrs)).0.cache ≡ e.cache)
  reply_cases e q [] = ground arith
  reply_cases e q (rr ∷ rrs) = ground arith

-- What a query comes to, by the order of the tests alone.
abbrev pub outcome_of : Dns → Elchi → Query → Outcome
outcome_of dns e q =
    if dns.zone_matches e.zone q.name == []
    then next_or_failure
    else if not (is_served q.qtype)
    then next_or_failure
    else if not (is_empty (best e.cache q))
    then written (record { rcode = rcode_success; authoritative = true; answer = best e.cache q })
        rcode_success
    else if dns.fall_through q.name
    then next_or_failure
    else written (record { rcode = rcode_name_error; authoritative = true; answer = [] })
        rcode_name_error

-- What ServeDNS does with a query, on every branch: outside the zone and for other types the next
-- plugin decides; otherwise the CNAME of the name is the answer, or else what is there of the type;
-- where there is neither, the next plugin decides if the name falls through, and the answer is
-- NXDOMAIN if it does not. The cache is left as it is.
pub serve_dns_cases :
    (dns : Dns) (e : Elchi) (q : Query)
    → ((serve_dns dns e q).1 ≡ outcome_of dns e q) × ((serve_dns dns e q).0.cache ≡ e.cache)
unfolding serve_dns
serve_dns_cases dns e q = elim (Bool-cases (dns.zone_matches e.zone q.name == [])) [
  | inl outside ↦ rw outside (refl, refl)
  | inr inside ↦
      rw (inside, lookup_rrs-eq-best e.cache q)
        (elim (Bool-cases (is_served q.qtype)) [
          | inl served ↦ rw served (reply_cases dns _ q (best e.cache q))
          | inr other ↦ rw other (refl, refl)
        ])
]

abbrev pub nxdomain : Outcome
nxdomain =
    written (record { rcode = rcode_name_error; authoritative = true; answer = [] })
      rcode_name_error

-- NXDOMAIN is answered exactly where the name is in the zone, the type is A, AAAA or CNAME, the
-- cache has neither a CNAME nor anything of the type for the name, and the name does not fall
-- through. What the cache has for the name under the other types does not count.
pub serve_dns-nxdomain_iff :
    (dns : Dns) (e : Elchi) (q : Query)
    → ((serve_dns dns e q).1 ≡ nxdomain) ↔ (
        (dns.zone_matches e.zone q.name ≢ [])
        × (is_served q.qtype ≡ true)
        × (get e.cache q.name type_cname ≡ [])
        × (get e.cache q.name q.qtype ≡ [])
        × (dns.fall_through q.name ≡ false))
serve_dns-nxdomain_iff dns e q = ground (
  arith,
  serve_dns_cases dns e q,
  list_eqb_iff (dns.zone_matches e.zone q.name) [],
  is_empty_iff (get e.cache q.name type_cname),
  is_empty_iff (get e.cache q.name q.qtype),
)

-- A message that carries an answer or NXDOMAIN as a client may rely on it.
pub record IsSound (q : Query) (m : Msg) (code : ℕ) : Type 0 where
  pub coded : code ≡ m.rcode
  pub authority : m.authoritative ≡ true
  pub content :
      ((m.rcode ≡ rcode_name_error) × (m.answer ≡ []))
      ⊎ ((m.rcode ≡ rcode_success)
          × (m.answer ≢ [])
          × (All (Fits (normalize_domain q.name) q.qtype) m.answer
              ⊎ All (Fits (normalize_domain q.name) type_cname) m.answer))
