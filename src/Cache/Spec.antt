-- ===== src/Cache/Spec.antt =====
-- What a record of the API contributes to an answer, with no cache in sight: the description that
-- the methods of RecordCache (cache.go) are held to.
use elchi_gslb.Prelude.{
  ℕ, Bool, ◌&&◌, ◌||◌, List, [], ◌∷◌, ◌++◌, ◌==◌, list_eq, nat_eq, is_empty, if◌then◌else◌,
}
use elchi_gslb.Text.{Text, text, to_upper}
use elchi_gslb.Name.{normalize_domain, outside_zone}
use elchi_gslb.Record.{DnsRecord, DeleteRecord, Rr, type_a, type_aaaa, record_type_aaaa}
use elchi_gslb.Record.Build.{Built, ok, err, build_dns_records}
use elchi_gslb.Record.Build.Laws.{built_type}

abbrev pub or_ok : Built → List Rr
or_ok (ok rrs) = rrs
or_ok (err e) = []

-- The resource records that a record gives for a domain and query type: those that are built of it,
-- if it has that normalized name, lies in the zone and is filed under that type.
unfoldable pub contribution : Text → ℕ → Text → ℕ → DnsRecord → List Rr
contribution zone default_ttl domain qtype r =
    if outside_zone zone (normalize_domain r.name)
    then []
    else if normalize_domain r.name == domain && built_type r == qtype
    then or_ok (build_dns_records r default_ttl)
    else []

-- Those of a whole snapshot, in its order.
unfoldable pub contributions : Text → ℕ → Text → ℕ → List DnsRecord → List Rr
contributions zone default_ttl domain qtype [] = []
contributions zone default_ttl domain qtype (r ∷ rs) =
    contribution zone default_ttl domain qtype r ++ contributions zone default_ttl domain qtype rs

-- What is left of old resource records by a list of updates: the last record that contributes
-- anything takes their place.
unfoldable pub overridden : Text → ℕ → Text → ℕ → List DnsRecord → List Rr → List Rr
overridden zone default_ttl domain qtype [] old = old
overridden zone default_ttl domain qtype (r ∷ rs) old =
    let new = contribution zone default_ttl domain qtype r in
    overridden zone default_ttl domain qtype rs (if is_empty new then old else new)

-- Whether a deletion names a domain and query type.
unfoldable pub names : Text → ℕ → DeleteRecord → Bool
names domain qtype del =
    normalize_domain del.name == domain
    && ((to_upper del.type == text "A" && qtype == type_a)
        || (to_upper del.type == record_type_aaaa && qtype == type_aaaa))
