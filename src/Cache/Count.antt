-- ===== src/Cache/Count.antt =====
-- The counts of RecordCache (cache.go): RRCount, the gauge, and the two counters of the load loop.
use elchi_gslb.Prelude.{
  ℕ, ◌+◌, ◌≡◌, List, [], ◌∷◌, ◌++◌, some, list_eq, nat_eq, is_empty, if◌then◌else◌, arith,
  Bool-cases, inl, inr, length, length-append, lookup, insert,
}
use elchi_gslb.Text.{Text}
use elchi_gslb.Name.{normalize_domain, outside_zone}
use elchi_gslb.Record.{DnsRecord, DnsSnapshot, Rr, header}
use elchi_gslb.Record.Build.{Built, ok, err, build_dns_records}
use elchi_gslb.Cache.Nested.{Table, QtypeMap, or_empty, entry, store, append_at, count_rrs}
use elchi_gslb.Cache.{
  RecordCache, Loading, nothing_loaded, load_built, load_record, load_records,
  replace_from_snapshot, rr_count,
}
use elchi_gslb.Cache.Nested.{qtype_map_count}
use elchi_gslb.Cache.Spec.{or_ok}
use elchi_gslb.Cache.Entries.{entry_lem, store_lem, append_at_lem}

-- The resource records that a record leaves in the cache, wherever that is.
abbrev placed : Text → ℕ → DnsRecord → List Rr
placed zone ttl r =
    if outside_zone zone (normalize_domain r.name) then [] else or_ok (build_dns_records r ttl)

-- How many resource records a snapshot comes to.
pub total : Text → ℕ → List DnsRecord → ℕ
total zone ttl [] = 0
total zone ttl (r ∷ rs) = length (placed zone ttl r) + total zone ttl rs

-- How many of its records come to none.
pub fruitless : Text → ℕ → List DnsRecord → ℕ
fruitless zone ttl [] = 0
fruitless zone ttl (r ∷ rs) =
    (if is_empty (placed zone ttl r) then 1 else 0) + fruitless zone ttl rs

qtype_map_count-insert :
    (q : ℕ) (rrs : List Rr) (m : QtypeMap)
    → qtype_map_count (insert q rrs m) + length (or_empty (lookup q m))
      ≡ qtype_map_count m + length rrs
unfolding qtype_map_count insert lookup
qtype_map_count-insert q rrs [] = omega arith
qtype_map_count-insert q rrs ((p, old) ∷ m) = ground (arith, qtype_map_count-insert q rrs m)

count_rrs-insert :
    (d : Text) (m : QtypeMap) (t : Table)
    → count_rrs (insert d m t) + qtype_map_count (or_empty (lookup d t))
      ≡ count_rrs t + qtype_map_count m
unfolding count_rrs insert lookup
count_rrs-insert d m [] = omega arith
count_rrs-insert d m ((p, old) ∷ t) = ground (arith, count_rrs-insert d m t)

count_rrs-store :
    (d : Text) (q : ℕ) (rrs : List Rr) (t : Table)
    → count_rrs (store d q rrs t) + length (entry t d q) ≡ count_rrs t + length rrs
count_rrs-store d q rrs t =
    rw (store_lem, entry_lem)
      (omega (
        arith,
        count_rrs-insert d (insert q rrs (or_empty (lookup d t))) t,
        qtype_map_count-insert q rrs (or_empty (lookup d t)),
      ))

count_rrs-append_at :
    (d : Text) (q : ℕ) (rrs : List Rr) (t : Table)
    → count_rrs (append_at d q rrs t) ≡ count_rrs t + length rrs
count_rrs-append_at d q rrs t =
    rw append_at_lem (
      omega
        (arith, count_rrs-store d q (entry t d q ++ rrs) t, length-append {0} (entry t d q) rrs))

module _ (zone : Text) (ttl : ℕ) where
  load_built_counts :
      (d : Text) (b : Built) (l : Loading)
      → (count_rrs (load_built d b l).new_records ≡ count_rrs l.new_records + length (or_ok b))
        × ((load_built d b l).skipped ≡ l.skipped + (if is_empty (or_ok b) then 1 else 0))
        × ((load_built d b l).loaded + (if is_empty (or_ok b) then 1 else 0) ≡ l.loaded + 1)
  load_built_counts d (err e) l = omega arith
  load_built_counts d (ok []) l = omega arith
  load_built_counts d (ok (rr ∷ rrs)) l =
      omega (arith, count_rrs-append_at d (header rr).rrtype (rr ∷ rrs) l.new_records)

  load_record_counts :
      (r : DnsRecord) (l : Loading)
      → (count_rrs (load_record zone ttl r l).new_records
          ≡ count_rrs l.new_records + length (placed zone ttl r))
        × ((load_record zone ttl r l).skipped
            ≡ l.skipped + (if is_empty (placed zone ttl r) then 1 else 0))
        × ((load_record zone ttl r l).loaded + (if is_empty (placed zone ttl r) then 1 else 0)
            ≡ l.loaded + 1)
  unfolding load_record
  load_record_counts r l = elim (Bool-cases (outside_zone zone (normalize_domain r.name))) [
    | inl out ↦ rw out (omega arith)
    | inr within ↦
        rw within (load_built_counts (normalize_domain r.name) (build_dns_records r ttl) l)
  ]

  load_records_counts :
      (rs : List DnsRecord) (l : Loading)
      → (count_rrs (load_records zone ttl rs l).new_records
          ≡ count_rrs l.new_records + total zone ttl rs)
        × ((load_records zone ttl rs l).skipped ≡ l.skipped + fruitless zone ttl rs)
        × ((load_records zone ttl rs l).loaded + fruitless zone ttl rs ≡ l.loaded + length rs)
  unfolding load_records total fruitless
  load_records_counts [] l = omega arith
  load_records_counts (r ∷ rs) l =
      let (a, b, c) = load_record_counts r l in
      let (x, y, z) = load_records_counts rs (load_record zone ttl r l) in
      (omega arith, omega arith, omega arith)

-- After a snapshot is loaded, RRCount and the gauge are the number of resource records that are
-- built of the snapshot's records in the zone: nothing is lost where two records share a place.
pub rr_count-replace_from_snapshot :
    (c : RecordCache) (s : DnsSnapshot) (ttl now : ℕ)
    → (rr_count (replace_from_snapshot c (some s) ttl now).0 ≡ total c.zone ttl s.records)
      × ((replace_from_snapshot c (some s) ttl now).0.cache_size ≡ total c.zone ttl s.records)
unfolding replace_from_snapshot rr_count
rr_count-replace_from_snapshot c s ttl now =
    let e = (load_records_counts c.zone ttl s.records nothing_loaded).0 in
    (omega arith, omega arith)

-- The load loop counts every record once: as skipped if it comes to no resource record, and
-- otherwise as loaded.
load_records_counted :
    (zone : Text) (ttl : ℕ) (rs : List DnsRecord)
    → ((load_records zone ttl rs nothing_loaded).skipped ≡ fruitless zone ttl rs)
      × ((load_records zone ttl rs nothing_loaded).loaded
            + (load_records zone ttl rs nothing_loaded).skipped
          ≡ length rs)
load_records_counted zone ttl rs =
    let (_, b, c) = load_records_counts zone ttl rs nothing_loaded in (omega arith, omega arith)
