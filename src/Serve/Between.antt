-- ===== src/Serve/Between.antt =====
-- ServeDNS (elchi.go) where its two lookups meet two caches.
use elchi_gslb.Prelude.{
  ℕ, ◌≡◌, ◌≢◌, refl, true, not, ◌&&◌, List, [], ◌==◌, none, some, ◌⊎◌, All, list_eq, nat_eq,
  is_empty, is_empty_iff, if◌then◌else◌, arith, Bool-cases, inl, inr,
}
use elchi_gslb.Name.{normalize_domain}
use elchi_gslb.Record.{Rr, type_cname}
use elchi_gslb.Cache.{RecordCache, get}
use elchi_gslb.Cache.Invariant.{get-Fits}
use elchi_gslb.Cache.Valid.{IsValid, Fits}
use elchi_gslb.Plugin.{Elchi}
use elchi_gslb.Serve.{
  Dns, Query, Msg, Outcome, next_or_failure, written, rcode_success, rcode_name_error, lookup_rrs,
  serve_dns_between, serve_dns,
}
use elchi_gslb.Serve.Answers.{is_served, IsSound, reply_cases}

-- What the two lookups come to: the CNAME of the first cache, or else what the second has.
abbrev pub found : RecordCache → RecordCache → Query → List Rr
found first second q =
    if is_empty (get first q.name type_cname) && not (q.qtype == type_cname)
    then get second q.name q.qtype
    else get first q.name type_cname

lookup_rrs-eq-found :
    (first second : RecordCache) (q : Query)
    → lookup_rrs first second q.name q.qtype
      ≡ (if is_served q.qtype then some (found first second q) else none)
unfolding lookup_rrs
lookup_rrs-eq-found first second q = ground arith

abbrev outcome_between : Dns → RecordCache → Elchi → Query → Outcome
outcome_between dns second e q =
    if dns.zone_matches e.zone q.name == []
    then next_or_failure
    else if not (is_served q.qtype)
    then next_or_failure
    else if not (is_empty (found e.cache second q))
    then written
        (record { rcode = rcode_success; authoritative = true; answer = found e.cache second q })
        rcode_success
    else if dns.fall_through q.name
    then next_or_failure
    else written (record { rcode = rcode_name_error; authoritative = true; answer = [] })
        rcode_name_error

pub serve_dns_between_cases :
    (dns : Dns) (second : RecordCache) (e : Elchi) (q : Query)
    → ((serve_dns_between dns second e q).1 ≡ outcome_between dns second e q)
      × ((serve_dns_between dns second e q).0.cache ≡ second)
unfolding serve_dns_between
serve_dns_between_cases dns second e q = elim (Bool-cases (dns.zone_matches e.zone q.name == [])) [
  | inl outside ↦ rw outside (refl, refl)
  | inr inside ↦
      rw (inside, lookup_rrs-eq-found e.cache second q)
        (elim (Bool-cases (is_served q.qtype)) [
          | inl served ↦ rw served (reply_cases dns _ q (found e.cache second q))
          | inr other ↦ rw other (refl, refl)
        ])
]

found-Fits :
    (first second : RecordCache) (q : Query)
    → IsValid first
    → IsValid second
    → All (Fits (normalize_domain q.name) q.qtype) (found first second q)
      ⊎ All (Fits (normalize_domain q.name) type_cname) (found first second q)
found-Fits first second q v w =
    elim (Bool-cases (is_empty (get first q.name type_cname) && not (q.qtype == type_cname))) [
      | inl direct ↦ rw direct (inl (get-Fits second w q.name q.qtype))
      | inr failover ↦ rw failover (inr (get-Fits first v q.name type_cname))
    ]

written_between :
    (dns : Dns) (second : RecordCache) (e : Elchi) (q : Query) (m : Msg) (code : ℕ)
    → (serve_dns_between dns second e q).1 ≡ written m code
    → (code ≡ m.rcode)
      × (m.authoritative ≡ true)
      × (((m.rcode ≡ rcode_name_error) × (m.answer ≡ []))
          ⊎ ((m.rcode ≡ rcode_success)
              × (found e.cache second q ≢ [])
              × (m.answer ≡ found e.cache second q)))
written_between dns second e q m code h =
    ground (arith, serve_dns_between_cases dns second e q, is_empty_iff (found e.cache second q))

-- Where both caches are valid, what is written is sound.
pub serve_dns_between-IsSound :
    (dns : Dns) (second : RecordCache) (e : Elchi) (q : Query) (m : Msg) (code : ℕ)
    → IsValid e.cache
    → IsValid second
    → (serve_dns_between dns second e q).1 ≡ written m code
    → IsSound q m code
serve_dns_between-IsSound dns second e q m code v w h =
    let (coded, authority, content) = written_between dns second e q m code h in
    record {
      coded = coded;
      authority = authority;
      content = elim content [
        | inl missed ↦ inl missed
        | inr (success, some_rrs, from_cache) ↦
            inr (success, rw from_cache some_rrs, rw from_cache (found-Fits e.cache second q v w))
      ];
    }

-- Whatever a plugin with a valid cache writes is authoritative, and is NXDOMAIN with no answer, or
-- success with some answer: resource records of the normalized name, all of the type asked for or
-- all of them CNAMEs.
serve_dns-IsSound :
    (dns : Dns) (e : Elchi) (q : Query) (m : Msg) (code : ℕ)
    → IsValid e.cache
    → (serve_dns dns e q).1 ≡ written m code
    → IsSound q m code
unfolding serve_dns
serve_dns-IsSound dns e q m code valid =
    serve_dns_between-IsSound dns e.cache e q m code valid valid
