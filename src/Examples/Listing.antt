-- ===== src/Examples/Listing.antt =====
-- Listings of the cache at concrete inputs.
use mathlib.Core.List.{Memᴰ}
use elchi_gslb.Prelude.{
  some, ℕ, ◌≢◌, inl, inr, ap, subst, true, ◌∙◌, ◌==◌, list_eqb, list_eqb_iff, ◌<◌, ◌++◌, arith, ◌≡◌,
  refl, ◌↔◌, [], ◌∷◌, length, list_eq, nat_eq,
}
use elchi_gslb.Text.{text, lower_char, to_lower, to_upper, trim_suffix}
use elchi_gslb.Name.{normalize_domain, outside_zone, dot}
use elchi_gslb.Record.{DnsRecord, Rr, RrHeader, type_a, type_cname}
use elchi_gslb.Record.Build.{v4_of, build_dns_records}
use elchi_gslb.Ip.{parse_ip, to_4, ip_string}
use elchi_gslb.Cache.Nested.{append_at}
use elchi_gslb.Ip.Round.{IsV4}
use elchi_gslb.Cache.Relist.{address}
use elchi_gslb.Cache.Resent.{IsListable, addresses, failover, get-update-get_all_records}
use elchi_gslb.Cache.Keys.{IsKeyed, IsKeyed-IsWritten}
use elchi_gslb.Cache.Kept.{replace-written}
use elchi_gslb.Cache.Invariant.{new_record_cache-IsValid, replace-IsValid}
use elchi_gslb.Cache.Valid.{IsValid}
use elchi_gslb.Examples.{zone, empty_cache, snapshot}
use elchi_gslb.Cache.{
  update, get, get_version_hash, get_all_records, last_ttl, load_record, load_records,
  new_record_cache, replace_from_snapshot,
}
use elchi_gslb.Cache.Listing.{get_all_records_failover}
use elchi_gslb.Client.{fetch_snapshot}
use elchi_gslb.Sync.{init_client, fresh_elchi}
use elchi_gslb.Sync.Start.{init_client-IsValid}
use elchi_gslb.Webhook.{Request, undecodable, Endpoint, handle, status_ok, listing}
use elchi_gslb.Webhook.{RecordsResponse, handle_records, handle_records_between}
use elchi_gslb.Plugin.{Elchi}
use mathlib.Core.List.Memᴰ.{head, tail, not-nil}
use elchi_gslb.Webhook.Torn.{reloaded, lists, handle_records_between-torn}
use elchi_gslb.Sync.{snapshot_of}
use elchi_gslb.Examples.{later_snapshot}
use elchi_gslb.Webhook.Records.{Passes, shown, handle-shown}
use elchi_gslb.Examples.{config, no_metrics, controller, started, loaded}

abbrev asia_cname : Rr
asia_cname =
    Rr.cname (record { name = text "asia.gslb.elchi."; rrtype = 5; class = 1; ttl = 20 })
      (text "europe.gslb.elchi.")

started_asia : get started.cache (text "asia.gslb.elchi") type_cname ≡ asia_cname ∷ []
unfolding init_client fresh_elchi fetch_snapshot get replace_from_snapshot load_records load_record
    new_record_cache build_dns_records v4_of parse_ip to_4 normalize_domain outside_zone append_at
started_asia = refl

get_all_records_failover_example :
    Memᴰ
      (record {
        name = trim_suffix (normalize_domain (text "asia.gslb.elchi")) dot;
        type = [];
        ttl = last_ttl 0 (asia_cname ∷ []);
        ips = [];
        failover = [];
      })
      (get_all_records started.cache)
get_all_records_failover_example =
    get_all_records_failover started.cache (text "asia.gslb.elchi") asia_cname []
      (init_client-IsValid config no_metrics 0 (controller 200) 1000) started_asia

abbrev list_request : Request
list_request = record {
  method = text "GET";
  path = text "/records";
  secret = text "test-secret-key";
  notify = undecodable (text "EOF");
  name = text "Asia";
  type = text "a";
}

abbrev asia_listed : DnsRecord
asia_listed = record { name = text "asia.gslb.elchi"; type = []; ttl = 20; ips = []; failover = [] }

started_secret : list_request.secret ≡ started.secret
unfolding init_client fresh_elchi fetch_snapshot
started_secret = refl

handle-shown_example :
    ((handle Endpoint.records 2000 started list_request).1 ≡ record {
      status_code = status_ok;
      payload = listing (record {
        zone = started.zone;
        version_hash = get_version_hash started.cache;
        count = length (shown started list_request);
        records = shown started list_request;
      });
    })
    × (Memᴰ asia_listed (shown started list_request) ↔ (
        Memᴰ asia_listed (get_all_records started.cache)
        × Passes (to_lower list_request.name) (to_upper list_request.type) asia_listed))
    × ((handle Endpoint.records 2000 started list_request).0.cache ≡ started.cache)
handle-shown_example = handle-shown 2000 started list_request asia_listed refl started_secret

-- The addresses of a listener, as the snapshot of the examples gives them.
abbrev listener_header : RrHeader
listener_header = record { name = text "listener1.gslb.elchi."; rrtype = 1; class = 1; ttl = 300 }

abbrev first_address : Rr
first_address = Rr.a listener_header (192 ∷ 168 ∷ 1 ∷ 10 ∷ [])

abbrev second_address : Rr
second_address = Rr.a listener_header (192 ∷ 168 ∷ 1 ∷ 11 ∷ [])

listener_spelled :
    normalize_domain (text "listener1.gslb.elchi") ≡ text "listener1.gslb.elchi" ++ dot
unfolding normalize_domain
listener_spelled = refl

in_private : (d : ℕ) → d < 256 → IsV4 192 168 1 d
in_private d small = record {
  first = omega arith;
  second = omega arith;
  third = omega arith;
  fourth = small;
}

-- A listing of all types, while a snapshot comes that has an address for the name in failover.
abbrev all_types : Request
all_types = record list_request { type = [] }

abbrev started_reloaded : Elchi
started_reloaded = reloaded 1900 started (snapshot_of later_snapshot)

started_listed : Memᴰ asia_listed (get_all_records started.cache)
unfolding init_client fresh_elchi fetch_snapshot get_all_records replace_from_snapshot load_records
    load_record new_record_cache build_dns_records v4_of parse_ip to_4 normalize_domain outside_zone
    append_at trim_suffix last_ttl
started_listed = tail (head refl)

reloaded_listed :
    get_all_records started_reloaded.cache
    ≡ record asia_listed { type = text "A"; ips = text "10.0.0.1" ∷ [] } ∷ []
unfolding init_client fresh_elchi fetch_snapshot get_all_records replace_from_snapshot load_records
    load_record new_record_cache build_dns_records v4_of parse_ip to_4 normalize_domain outside_zone
    append_at trim_suffix last_ttl ip_string
reloaded_listed = refl

not_reloaded : ¬ Memᴰ asia_listed (get_all_records started_reloaded.cache)
not_reloaded m = not-asia (subst (Memᴰ asia_listed) reloaded_listed m)
  where
    not-asia :
        ¬ Memᴰ asia_listed (record asia_listed { type = text "A"; ips = text "10.0.0.1" ∷ [] } ∷ [])
    not-asia (head e) = let type : [] ≡ text "A" = ap (λ (x : DnsRecord). x.type) e in cc type
    not-asia (tail later) = not-nil later

started_version : get_version_hash started.cache ≡ text "v1"
unfolding init_client fresh_elchi fetch_snapshot replace_from_snapshot
started_version = refl

other_version : text "v2" ≢ get_version_hash started.cache
unfolding list_eqb
other_version e =
    let same : (text "v2" == text "v1") ≡ true =
      (list_eqb_iff (text "v2") (text "v1")).1 (e ∙ started_version) in
    cc same

asia-Passes : Passes (to_lower all_types.name) (to_upper all_types.type) asia_listed
unfolding lower_char
asia-Passes = (inr ([], text ".gslb.elchi", refl), inl refl)

handle_records_between-torn_example :
    ((content : RecordsResponse) × ((handle_records_between started.cache 2000 started_reloaded
          all_types).1
        ≡ lists content)
      × (content.version_hash ≡ text "v2")
      × Memᴰ asia_listed content.records)
    × ((handle_records_between started.cache 2000 started_reloaded all_types).1
        ≢ (handle_records 2000 started all_types).1)
    × ((handle_records_between started.cache 2000 started_reloaded all_types).1
        ≢ (handle_records 2000 started_reloaded all_types).1)
handle_records_between-torn_example =
    handle_records_between-torn 2000 1900 started all_types (snapshot_of later_snapshot) asia_listed
      refl other_version started_listed asia-Passes not_reloaded

loaded-IsValid : IsValid loaded
loaded-IsValid = replace-IsValid empty_cache (new_record_cache-IsValid zone 0) (some snapshot) 300 7

loaded-IsKeyed : IsKeyed loaded.records
loaded-IsKeyed = replace-written IsKeyed IsKeyed-IsWritten empty_cache snapshot 300 7

loaded-IsListable : IsListable loaded.records
unfolding replace_from_snapshot load_records load_record new_record_cache build_dns_records v4_of
    parse_ip to_4 normalize_domain outside_zone append_at
loaded-IsListable = (
  (
    addresses (text "listener1.gslb.elchi") 300 listener_spelled (λ e. cc)
        (
          address 192 168 1 10 (in_private 10 (omega arith)),
          (address 192 168 1 11 (in_private 11 (omega arith)), tt),
        ),
    tt,
  ),
  ((failover, tt), tt),
)

get-update-get_all_records_example :
    get (update loaded (get_all_records loaded) 300 9).0 (text "LISTENER1.gslb.elchi.") type_a
    ≡ get loaded (text "LISTENER1.gslb.elchi.") type_a
get-update-get_all_records_example =
    get-update-get_all_records loaded 300 9 (text "LISTENER1.gslb.elchi.") type_a loaded-IsValid
      loaded-IsKeyed loaded-IsListable
