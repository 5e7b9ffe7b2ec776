-- ===== src/Examples.antt =====
-- Concrete inputs for the theorems, near those of the repository's own tests: a zone with an address,
-- a failover and a refused record, a controller that gives a snapshot and one that does not.
mod Caching
mod Serving
mod Syncing
mod Hooks
mod Viewing
mod Requesting
mod Processes
mod Corefiles
mod Configuring
mod Listing
mod Mocking
use elchi_gslb.Prelude.{
  ℕ, zero, suc, ◌+◌, ◌≤◌, ◌<◌, ◌≡◌, ◌≢◌, refl, ap, sym, subst, ◌∙◌, Bool, true, false, not, ◌&&◌,
  ◌||◌, List, [], ◌∷◌, ◌++◌, map, leb, ltb, ◌==◌, Option, none, some, ◌⊎◌, All, any, keep, list_eq,
  nat_eq, nat_eqb_iff, list_eqb, list_eqb_iff, is_empty, is_empty_iff, if◌then◌else◌, arith,
  Bool-cases, Option-cases, inl, inr, eqb_refl, ◌↔◌, append-nil, append_assoc, length,
  length-append, Assoc, lookup, insert, lookup-insert, lookup-delete, ◌≡⟨◌⟩◌, ◌∎,
}
use Prim.Native.String.{String}
use elchi_gslb.Text.{Text, text, to_lower, to_upper}
use elchi_gslb.Record.{DnsRecord, DnsSnapshot, DeleteRecord}
use elchi_gslb.Cache.{RecordCache, new_record_cache, replace_from_snapshot}
use elchi_gslb.Client.{Net, Attempt, done, failed, Body, whole, DnsChangesResponse, HttpResponse}
use elchi_gslb.Plugin.{Config, Elchi, Metrics, CounterVec}
use elchi_gslb.Serve.{Dns, Query}
use elchi_gslb.Sync.{init_client}
use elchi_gslb.Webhook.{Request, Decoded, decoded, undecodable, NotifyRequest}

abbrev pub zone : Text
zone = text "gslb.elchi."

abbrev pub listener : DnsRecord
listener = record {
  name = text "Listener1.gslb.elchi";
  type = text "a";
  ttl = 0;
  ips = text "192.168.1.10" ∷ text "bogus" ∷ text "192.168.1.11" ∷ [];
  failover = [];
}

abbrev pub asia : DnsRecord
asia = record {
  name = text "asia.gslb.elchi";
  type = text "A";
  ttl = 20;
  ips = [];
  failover = text "europe.gslb.elchi";
}

abbrev pub asia_back : DnsRecord
asia_back = record {
  name = text "asia.gslb.elchi";
  type = text "A";
  ttl = 20;
  ips = text "10.0.0.1" ∷ [];
  failover = [];
}

abbrev pub useless : DnsRecord
useless = record {
  name = text "bad.gslb.elchi";
  type = text "A";
  ttl = 20;
  ips = text "2001:db8::1" ∷ [];
  failover = [];
}

abbrev pub stranger : DnsRecord
stranger = record {
  name = text "www.example.org";
  type = text "A";
  ttl = 20;
  ips = text "10.0.0.2" ∷ [];
  failover = [];
}

abbrev pub records : List DnsRecord
records = listener ∷ asia ∷ useless ∷ stranger ∷ []

abbrev pub snapshot : DnsSnapshot
snapshot = record { zone = text "gslb.elchi"; version_hash = text "v1"; records = records }

abbrev pub later_snapshot : DnsChangesResponse
later_snapshot = record {
  unchanged = false;
  zone = text "gslb.elchi";
  version_hash = text "v2";
  records = asia_back ∷ [];
}

abbrev pub empty_cache : RecordCache
empty_cache = new_record_cache zone 0

abbrev pub loaded : RecordCache
loaded = (replace_from_snapshot empty_cache (some snapshot) 300 7).0

abbrev pub config : Config
config = record {
  endpoint = text "http://controller:1052/";
  zone = zone;
  secret = text "test-secret-key";
  ttl = 300;
  sync_interval = 60000000000;
  timeout = 4000000000;
  webhook_addr = text ":8053";
  webhook_enable = true;
  tls_skip_verify = false;
  node_ip = text "10.0.0.9";
  regions = text "asya" ∷ [];
}

abbrev pub zero_counter : CounterVec
zero_counter a b = 0

abbrev pub no_metrics : Metrics
no_metrics = record {
  request_count = zero_counter;
  cache_hits = zero_counter;
  cache_misses = zero_counter;
  sync_duration = λ a b. [];
  sync_errors = zero_counter;
  webhook_requests = zero_counter;
}

-- A controller whose every response has a status code.
abbrev pub controller : ℕ → Net
controller code = record {
  parse_url = λ url. done [];
  new_request = λ url q. done tt;
  exchange = λ r. done (record { status_code = code; body = whole (text "{}") });
  unmarshal_snapshot = λ body. done snapshot;
  unmarshal_changes = λ body. done later_snapshot;
}

-- A controller that cannot be reached.
abbrev pub unreachable : Net
unreachable = record {
  parse_url = λ url. done [];
  new_request = λ url q. done tt;
  exchange = λ r. failed (text "connection refused");
  unmarshal_snapshot = λ body. done snapshot;
  unmarshal_changes = λ body. done later_snapshot;
}

abbrev pub started : Elchi
started = init_client config no_metrics 0 (controller 200) 1000

abbrev pub stranded : Elchi
stranded = init_client config no_metrics 0 unreachable 1000

-- Every name is in the zone, and none falls through.
abbrev pub dns : Dns
dns = record {
  zone_matches = λ zone name. zone;
  fall_through = λ name. false;
  type_to_string = λ qtype. if qtype == 1 then text "A" else text "other";
}

abbrev pub ask : String → ℕ → Query
ask name qtype = record { name = text name; qtype = qtype }

abbrev pub notification : NotifyRequest
notification = record {
  records = asia_back ∷ [];
  deletes = record { name = text "listener1.gslb.elchi"; type = text "a" } ∷ [];
}

abbrev pub notify_request : Request
notify_request = record {
  method = text "POST";
  path = text "/notify";
  secret = text "test-secret-key";
  notify = decoded notification;
  name = [];
  type = [];
}
