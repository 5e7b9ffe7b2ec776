-- ===== src/Serve/Race.antt =====
-- The two lookups of ServeDNS (elchi.go) are two critical sections: a snapshot or a webhook may come
-- between them.
use elchi_gslb.Prelude.{
  ◌≡◌, ◌≢◌, false, [], ◌⊎◌, list_eq, nat_eq, list_eqb_iff, is_empty_iff, arith,
}
use elchi_gslb.Record.{type_a, type_aaaa, type_cname}
use elchi_gslb.Cache.{RecordCache, get}
use elchi_gslb.Plugin.{Elchi}
use elchi_gslb.Serve.{Dns, Query, serve_dns_between, serve_dns}
use elchi_gslb.Serve.Answers.{nxdomain, serve_dns-nxdomain_iff}

-- The plugin with another cache.
abbrev with_cache : RecordCache → Elchi → Elchi
with_cache c e = record e { cache = c }

-- Take a name in the zone that does not fall through, asked for A or AAAA, which the cache has of
-- that type and without a CNAME; and a write that puts a CNAME in the place of that type. Before
-- the write and after it the query does not get NXDOMAIN, but it does if the write comes between
-- the two lookups.
pub serve_dns_between-nxdomain :
    (dns : Dns) (e : Elchi) (second : RecordCache) (q : Query)
    → ((q.qtype ≡ type_a) ⊎ (q.qtype ≡ type_aaaa))
    → dns.zone_matches e.zone q.name ≢ []
    → dns.fall_through q.name ≡ false
    → get e.cache q.name type_cname ≡ []
    → get e.cache q.name q.qtype ≢ []
    → get second q.name type_cname ≢ []
    → get second q.name q.qtype ≡ []
    → ((serve_dns dns e q).1 ≢ nxdomain)
      × ((serve_dns dns (with_cache second e) q).1 ≢ nxdomain)
      × ((serve_dns_between dns second e q).1 ≡ nxdomain)
unfolding serve_dns_between
serve_dns_between-nxdomain dns e second q asked zone stays no_cname some_rrs cname gone = (
  λ h. some_rrs (((serve_dns-nxdomain_iff dns e q).0 h).3),
  λ h. cname (((serve_dns-nxdomain_iff dns (with_cache second e) q).0 h).2),
  ground (
    arith,
    list_eqb_iff (dns.zone_matches e.zone q.name) [],
    is_empty_iff (get e.cache q.name type_cname),
    is_empty_iff (get second q.name q.qtype),
  ),
)
