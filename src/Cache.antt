-- ===== src/Cache.antt =====
-- RecordCache (cache.go). Each method holds the mutex for its whole critical section, so it is one
-- step; ReplaceFromSnapshot builds the new map before it takes the lock, from its arguments and the
-- zone, which never changes.
pub mod Nested
pub mod Entries
pub mod Spec
pub mod Replace
pub mod Merge
pub mod Valid
pub mod Invariant
pub mod Kept
pub mod Keys
pub mod Count
pub mod Listing
pub mod Order
pub mod View
pub mod Exact
pub mod Index
pub mod Listed
pub mod Domains
pub mod Relist
pub mod Resent
use elchi_gslb.Prelude.{
  ℕ, suc, ◌+◌, Bool, true, false, List, [], ◌∷◌, ◌++◌, Option, none, some, ◌==◌, nat_eq, list_eq,
  list_eqb, is_empty, length, lookup, if◌then◌else◌,
}
use elchi_gslb.Text.{Text, text, to_upper, upper_char, trim_suffix}
use elchi_gslb.Ip.{Ip, ip_string}
use elchi_gslb.Name.{dot, normalize_domain, outside_zone}
use elchi_gslb.Record.{
  DnsRecord, DnsSnapshot, DeleteRecord, Rr, header, type_a, type_aaaa, record_type_aaaa,
}
use elchi_gslb.Record.Build.{Built, ok, err, build_dns_records}
use elchi_gslb.Cache.Nested.{Table, QtypeMap, entry, store, append_at, remove, count_rrs}

-- `cache_size` is the gauge of that name for the cache's zone, which the methods set.
pub record RecordCache : Type 0 where
  pub zone : Text
  pub version_hash : Text
  pub updated_at : ℕ
  pub records : Table
  pub cache_size : ℕ

-- The gauge keeps what it was: NewRecordCache does not set it.
unfoldable pub new_record_cache : Text → ℕ → RecordCache
new_record_cache zone gauge = record {
  zone = zone;
  version_hash = [];
  updated_at = 0;
  records = [];
  cache_size = gauge;
}

-- Sets the gauge and returns what it was set to.
unfoldable pub update_cache_size_metric : RecordCache → RecordCache × ℕ
unfolding count_rrs
update_cache_size_metric c =
    let count = count_rrs c.records in (record c { cache_size = count }, count)

-- The variables of the loop of ReplaceFromSnapshot.
pub record Loading : Type 0 where
  pub new_records : Table
  pub loaded : ℕ
  pub skipped : ℕ

abbrev skip : Loading → Loading
skip l = record l { skipped = l.skipped + 1 }

abbrev load_built : Text → Built → Loading → Loading
load_built domain (err e) l = skip l
load_built domain (ok []) l = skip l
load_built domain (ok (rr ∷ rrs)) l = record l {
  new_records = append_at domain (header rr).rrtype (rr ∷ rrs) l.new_records;
  loaded = l.loaded + 1;
}

-- One round of that loop.
unfoldable pub load_record : Text → ℕ → DnsRecord → Loading → Loading
load_record zone default_ttl r l =
    if outside_zone zone (normalize_domain r.name)
    then skip l
    else load_built (normalize_domain r.name) (build_dns_records r default_ttl) l

unfoldable pub load_records : Text → ℕ → List DnsRecord → Loading → Loading
load_records zone default_ttl [] l = l
load_records zone default_ttl (r ∷ rs) l =
    load_records zone default_ttl rs (load_record zone default_ttl r l)

abbrev pub nothing_loaded : Loading
nothing_loaded = record { new_records = []; loaded = 0; skipped = 0 }

-- The cache and the error, "snapshot is nil", that is returned.
unfoldable pub replace_from_snapshot :
    RecordCache → Option DnsSnapshot → ℕ → ℕ → RecordCache × Option Text
unfolding update_cache_size_metric
replace_from_snapshot c none default_ttl now = (c, some (text "snapshot is nil"))
replace_from_snapshot c (some snapshot) default_ttl now =
    let l = load_records c.zone default_ttl snapshot.records nothing_loaded in
    let (sized, record_count) = update_cache_size_metric (record c {
      records = l.new_records;
      version_hash = snapshot.version_hash;
      updated_at = now;
    }) in
    (sized, none)

-- The resource records for a query; the copy that is returned shares nothing that is written to.
unfoldable pub get : RecordCache → Text → ℕ → List Rr
get c qname qtype = elim (lookup (normalize_domain qname) c.records) [
  | none ↦ []
  | some qtype_map ↦ elim (lookup qtype qtype_map) [ none ↦ [] | some rrs ↦ rrs ]
]

abbrev pub get_version_hash : RecordCache → Text
get_version_hash c = c.version_hash

unfoldable pub domain_count : RecordCache → ℕ
domain_count c = length c.records

unfoldable pub rr_count : RecordCache → ℕ
unfolding count_rrs
rr_count c = count_rrs c.records

abbrev store_built : Text → Built → Table → Table
store_built domain (err e) t = t
store_built domain (ok []) t = t
store_built domain (ok (rr ∷ rrs)) t = store domain (header rr).rrtype (rr ∷ rrs) t

-- One round of the loop of Update.
unfoldable pub update_record : Text → ℕ → DnsRecord → Table → Table
update_record zone default_ttl r t =
    if outside_zone zone (normalize_domain r.name)
    then t
    else store_built (normalize_domain r.name) (build_dns_records r default_ttl) t

unfoldable pub update_records : Text → ℕ → List DnsRecord → Table → Table
update_records zone default_ttl [] t = t
update_records zone default_ttl (r ∷ rs) t =
    update_records zone default_ttl rs (update_record zone default_ttl r t)

-- Update and Delete return a cache and an error, nil on every path.
unfoldable pub update : RecordCache → List DnsRecord → ℕ → ℕ → RecordCache × Option Text
unfolding update_cache_size_metric
update c records default_ttl now =
    if is_empty records
    then (c, none)
    else (let (sized, record_count) = update_cache_size_metric (record c {
      records = update_records c.zone default_ttl records c.records;
      updated_at = now;
    }) in
        (sized, none))

-- The query type of a deletion; `none` where the loop goes on to the next.
unfoldable pub delete_qtype : Text → Option ℕ
unfolding list_eqb upper_char
delete_qtype type =
    if to_upper type == text "A"
    then some type_a
    else if to_upper type == record_type_aaaa
    then some type_aaaa
    else none

abbrev remove_qtype : Text → Option ℕ → Table → Table
remove_qtype domain none t = t
remove_qtype domain (some qtype) t = remove domain qtype t

-- One round of the loop of Delete.
unfoldable pub delete_record : DeleteRecord → Table → Table
delete_record del t = remove_qtype (normalize_domain del.name) (delete_qtype del.type) t

unfoldable pub delete_records : List DeleteRecord → Table → Table
delete_records [] t = t
delete_records (del ∷ deletes) t = delete_records deletes (delete_record del t)

unfoldable pub delete : RecordCache → List DeleteRecord → ℕ → RecordCache × Option Text
unfolding update_cache_size_metric
delete c deletes now =
    if is_empty deletes
    then (c, none)
    else (let (sized, record_count) =
          update_cache_size_metric
            (record c { records = delete_records deletes c.records; updated_at = now }) in
        (sized, none))

-- The addresses and the last TTL of the resource records of one entry.
unfoldable pub listed_ips : List Rr → List Text
listed_ips [] = []
listed_ips (Rr.a h ip ∷ rrs) = ip_string ip ∷ listed_ips rrs
listed_ips (Rr.aaaa h ip ∷ rrs) = ip_string ip ∷ listed_ips rrs
listed_ips (Rr.cname h target ∷ rrs) = listed_ips rrs

unfoldable pub last_ttl : ℕ → List Rr → ℕ
last_ttl ttl [] = ttl
last_ttl ttl (rr ∷ rrs) = last_ttl (header rr).ttl rrs

abbrev pub type_string : ℕ → Text
type_string qtype =
    if qtype == type_a then text "A" else if qtype == type_aaaa then text "AAAA" else []

unfoldable pub listed : Text → ℕ → List Rr → DnsRecord
unfolding listed_ips last_ttl
listed domain qtype rrs = record {
  name = trim_suffix domain dot;
  type = type_string qtype;
  ttl = last_ttl 0 rrs;
  ips = listed_ips rrs;
  failover = [];
}

unfoldable pub list_domain : Text → QtypeMap → List DnsRecord
list_domain domain [] = []
list_domain domain ((qtype, rrs) ∷ m) =
    let rest = list_domain domain m in if is_empty rrs then rest else listed domain qtype rrs ∷ rest

unfoldable pub list_table : Table → List DnsRecord
unfolding list_domain listed
list_table [] = []
list_table ((domain, m) ∷ t) = list_domain domain m ++ list_table t

unfoldable pub get_all_records : RecordCache → List DnsRecord
unfolding list_table
get_all_records c = list_table c.records
