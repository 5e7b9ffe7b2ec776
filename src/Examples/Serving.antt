-- ===== src/Examples/Serving.antt =====
-- ServeDNS (elchi.go) at concrete inputs.
use elchi_gslb.Prelude.{◌≡◌, ◌≢◌, refl, Bool, true, false, [], ◌∷◌, some, list_eq, nat_eq, inl, ◌↔◌}
use elchi_gslb.Text.{text}
use elchi_gslb.Examples.{
  zone, asia_back, snapshot, empty_cache, loaded, config, no_metrics, started, dns, ask,
}
use elchi_gslb.Name.{normalize_domain}
use elchi_gslb.Record.{type_a, type_cname}
use elchi_gslb.Cache.{RecordCache, get, replace_from_snapshot}
use elchi_gslb.Plugin.{Elchi}
use elchi_gslb.Serve.{Query, serve_dns_between, serve_dns}
use elchi_gslb.Ip.{parse_ip, to_4}
use elchi_gslb.Name.{outside_zone}
use elchi_gslb.Record.Build.{v4_of, build_dns_records}
use elchi_gslb.Cache.Nested.{append_at}
use elchi_gslb.Cache.{load_record, load_records, new_record_cache}
use elchi_gslb.Serve.Answers.{
  is_served, nxdomain, outcome_of, serve_dns_cases, serve_dns-nxdomain_iff,
}
use elchi_gslb.Serve.Race.{serve_dns_between-nxdomain}

-- The plugin with a cache that is given.
abbrev plugin : RecordCache → Elchi
plugin cache = record {
  config = config;
  client = started.client;
  cache = cache;
  sync_status = started.sync_status;
  metrics = no_metrics;
}

serve_dns_cases_example :
    ((serve_dns dns (plugin loaded) (ask "asia.gslb.elchi." 28)).1
      ≡ outcome_of dns (plugin loaded) (ask "asia.gslb.elchi." 28))
    × ((serve_dns dns (plugin loaded) (ask "asia.gslb.elchi." 28)).0.cache ≡ loaded)
serve_dns_cases_example = serve_dns_cases dns (plugin loaded) (ask "asia.gslb.elchi." 28)

-- NXDOMAIN for AAAA, though the name has addresses for A.
serve_dns-nxdomain_iff_example :
    ((serve_dns dns (plugin loaded) (ask "listener1.gslb.elchi." 28)).1 ≡ nxdomain) ↔ (
      (zone ≢ [])
      × (is_served 28 ≡ true)
      × (get loaded (text "listener1.gslb.elchi.") type_cname ≡ [])
      × (get loaded (text "listener1.gslb.elchi.") 28 ≡ [])
      × ◌≡◌ {A = Bool} false false)
serve_dns-nxdomain_iff_example =
    serve_dns-nxdomain_iff dns (plugin loaded) (ask "listener1.gslb.elchi." 28)

abbrev back : RecordCache
back =
    (replace_from_snapshot empty_cache (some (record snapshot { records = asia_back ∷ [] })) 300
      7).0

abbrev asks_asia : Query
asks_asia = ask "asia.gslb.elchi." 1

no_cname_yet : get back asks_asia.name type_cname ≡ []
unfolding get replace_from_snapshot load_records load_record new_record_cache build_dns_records
    v4_of parse_ip to_4 normalize_domain outside_zone append_at
no_cname_yet = refl

has_address : get back asks_asia.name type_a ≢ []
unfolding get replace_from_snapshot load_records load_record new_record_cache build_dns_records
    v4_of parse_ip to_4 normalize_domain outside_zone append_at
has_address e = cc

cname_then : get loaded asks_asia.name type_cname ≢ []
unfolding get replace_from_snapshot load_records load_record new_record_cache build_dns_records
    v4_of parse_ip to_4 normalize_domain outside_zone append_at
cname_then e = cc

no_address_then : get loaded asks_asia.name type_a ≡ []
unfolding get replace_from_snapshot load_records load_record new_record_cache build_dns_records
    v4_of parse_ip to_4 normalize_domain outside_zone append_at
no_address_then = refl

zone_given : zone ≢ []
zone_given e = cc

serve_dns_between-nxdomain_example :
    ((serve_dns dns (plugin back) asks_asia).1 ≢ nxdomain)
    × ((serve_dns dns (plugin loaded) asks_asia).1 ≢ nxdomain)
    × ((serve_dns_between dns loaded (plugin back) asks_asia).1 ≡ nxdomain)
serve_dns_between-nxdomain_example =
    serve_dns_between-nxdomain dns (plugin back) loaded asks_asia (inl refl) zone_given refl
      no_cname_yet has_address cname_then no_address_then
