-- ===== src/Examples/Caching.antt =====
-- Names, records and the cache (cache.go) at concrete inputs.
use elchi_gslb.Prelude.{
  ◌≡◌, ◌≢◌, refl, true, false, List, [], ◌∷◌, ◌++◌, none, some, All, any, list_eq, nat_eq,
  if◌then◌else◌, ◌↔◌,
}
use elchi_gslb.Text.{Text, text}
use elchi_gslb.Examples.{
  zone, listener, asia_back, useless, records, snapshot, empty_cache, loaded, notification,
}
use elchi_gslb.Name.{normalize_domain, outside_zone}
use elchi_gslb.Name.Zone.{outside_zone_iff}
use elchi_gslb.Record.{Rr, type_a, type_cname}
use elchi_gslb.Ip.{parse_ip, to_4}
use elchi_gslb.Cache.Nested.{append_at}
use elchi_gslb.Record.Build.{v4_of, build_dns_records, ok}
use elchi_gslb.Record.Build.Laws.{IsBuiltFrom, build_dns_records-IsBuiltFrom}
use elchi_gslb.Record.Build.Fails.{is_err, NoneUsable, build_dns_records-fails_iff}
use elchi_gslb.Cache.{
  get, replace_from_snapshot, update, delete, rr_count, load_record, load_records, new_record_cache,
}
use elchi_gslb.Cache.Spec.{contributions, overridden, names}
use elchi_gslb.Cache.Replace.{get-replace_from_snapshot}
use mathlib.Core.List.{Permᴰ}
use mathlib.Core.List.Permᴰ.{swap}
use elchi_gslb.Record.{DnsSnapshot}
use elchi_gslb.Examples.{asia, stranger}
use elchi_gslb.Cache.Order.{get-replace-Perm}
use elchi_gslb.Cache.Merge.{get-update, get-delete}
use elchi_gslb.Cache.Invariant.{methods-IsValid, new_record_cache-IsValid}
use elchi_gslb.Cache.Valid.{IsValid}
use elchi_gslb.Cache.Count.{total, rr_count-replace_from_snapshot}

normalized : normalize_domain (text "  WWW.Gslb.Elchi ") ≡ text "www.gslb.elchi."
unfolding normalize_domain
normalized = refl

-- The zone test lets a neighbour of the zone through.
evil_is_inside : outside_zone zone (text "evilgslb.elchi.") ≡ false
unfolding outside_zone
evil_is_inside = refl

outside_zone_iff_example :
    (outside_zone zone (text "evilgslb.elchi.") ≡ false)
    ↔ ((p : Text) × (text "evilgslb.elchi." ≡ p ++ zone))
outside_zone_iff_example = outside_zone_iff zone (text "evilgslb.elchi.")

abbrev listener_rrs : List Rr
listener_rrs =
    Rr.a (record { name = text "listener1.gslb.elchi."; rrtype = 1; class = 1; ttl = 300 })
      (192 ∷ 168 ∷ 1 ∷ 10 ∷ [])
    ∷ Rr.a (record { name = text "listener1.gslb.elchi."; rrtype = 1; class = 1; ttl = 300 })
        (192 ∷ 168 ∷ 1 ∷ 11 ∷ [])
    ∷ []

listener_built : build_dns_records listener 300 ≡ ok listener_rrs
unfolding build_dns_records v4_of parse_ip to_4 normalize_domain
listener_built = refl

build_dns_records-IsBuiltFrom_example : All (IsBuiltFrom listener 300) listener_rrs
build_dns_records-IsBuiltFrom_example =
    build_dns_records-IsBuiltFrom listener 300 listener_rrs listener_built

build_dns_records-fails_iff_example :
    (is_err (build_dns_records useless 300) ≡ true) ↔ ((useless.ips ≢ []) × NoneUsable useless)
build_dns_records-fails_iff_example = build_dns_records-fails_iff useless 300

get-replace_from_snapshot_example :
    (get
        (replace_from_snapshot empty_cache (some snapshot) 300 7).0
        (text "LISTENER1.gslb.elchi")
        type_a
      ≡ contributions empty_cache.zone 300
          (normalize_domain (text "LISTENER1.gslb.elchi"))
          type_a
          records)
    × ((replace_from_snapshot empty_cache (some snapshot) 300 7).0.version_hash ≡ text "v1")
    × ((replace_from_snapshot empty_cache (some snapshot) 300 7).1 ≡ none)
get-replace_from_snapshot_example =
    get-replace_from_snapshot empty_cache snapshot 300 7 (text "LISTENER1.gslb.elchi") type_a

loaded_answers : get loaded (text "LISTENER1.gslb.elchi") type_a ≡ listener_rrs
unfolding get replace_from_snapshot load_records load_record new_record_cache build_dns_records
    v4_of parse_ip to_4 normalize_domain outside_zone append_at
loaded_answers = refl

get-update_example :
    (get (update loaded (asia_back ∷ []) 300 8).0 (text "asia.gslb.elchi") type_a
      ≡ overridden loaded.zone 300
          (normalize_domain (text "asia.gslb.elchi"))
          type_a
          (asia_back ∷ [])
          (get loaded (text "asia.gslb.elchi") type_a))
    × ((update loaded (asia_back ∷ []) 300 8).0.version_hash ≡ loaded.version_hash)
    × ((update loaded (asia_back ∷ []) 300 8).1 ≡ none)
get-update_example = get-update loaded (asia_back ∷ []) 300 8 (text "asia.gslb.elchi") type_a

get-delete_example :
    (get (delete loaded notification.deletes 8).0 (text "asia.gslb.elchi") type_cname ≡ (
      if any (names (normalize_domain (text "asia.gslb.elchi")) type_cname) notification.deletes
      then []
      else get loaded (text "asia.gslb.elchi") type_cname))
    × ((delete loaded notification.deletes 8).0.version_hash ≡ loaded.version_hash)
    × ((delete loaded notification.deletes 8).1 ≡ none)
get-delete_example = get-delete loaded notification.deletes 8 (text "asia.gslb.elchi") type_cname

methods-IsValid_example :
    IsValid (replace_from_snapshot empty_cache (some snapshot) 300 7).0
    × IsValid (update empty_cache records 300 7).0
    × IsValid (delete empty_cache notification.deletes 7).0
methods-IsValid_example =
    methods-IsValid empty_cache (some snapshot) records notification.deletes 300 7
      (new_record_cache-IsValid zone 0)

rr_count-replace_from_snapshot_example :
    (rr_count (replace_from_snapshot empty_cache (some snapshot) 300 7).0
      ≡ total empty_cache.zone 300 records)
    × ((replace_from_snapshot empty_cache (some snapshot) 300 7).0.cache_size
        ≡ total empty_cache.zone 300 records)
rr_count-replace_from_snapshot_example = rr_count-replace_from_snapshot empty_cache snapshot 300 7

-- The snapshot of the examples with its first two records swapped.
abbrev swapped_snapshot : DnsSnapshot
swapped_snapshot = record {
  zone = text "gslb.elchi";
  version_hash = text "v1";
  records = asia ∷ listener ∷ useless ∷ stranger ∷ [];
}

get-replace-Perm_example :
    Permᴰ
      (get
        (replace_from_snapshot empty_cache (some snapshot) 300 7).0
        (text "listener1.gslb.elchi")
        type_a)
      (get
        (replace_from_snapshot empty_cache (some swapped_snapshot) 300 8).0
        (text "listener1.gslb.elchi")
        type_a)
get-replace-Perm_example =
    get-replace-Perm empty_cache empty_cache snapshot swapped_snapshot 300 7 8
      (text "listener1.gslb.elchi") type_a refl (swap refl refl)
