-- ===== src/Mock.antt =====
-- The mock controller (mock-controller/main.go), and the environment of a client that calls it.
-- Its version hash, which the time of its start is part of, is a parameter; encoding/json is `Json`.
pub mod Requests
pub mod Answers
pub mod Session
use elchi_gslb.Prelude.{
  ℕ, ◌+◌, ◌≡◌, Bool, true, false, not, List, [], ◌∷◌, ◌++◌, Option, none, some, lookup, length,
  ◌==◌, nat_eq, list_eq, list_eqb, if◌then◌else◌,
}
use elchi_gslb.Text.{Text, text, trim_suffix}
use elchi_gslb.Record.{DnsRecord, DnsSnapshot}
use elchi_gslb.Client.{
  Attempt, done, Params, HttpRequest, HttpResponse, Body, whole, DnsChangesResponse, Net,
}

abbrev mock_record : Text → Text → ℕ → List Text → Text → DnsRecord
mock_record name type ttl ips failover = record {
  name = name;
  type = type;
  ttl = ttl;
  ips = ips;
  failover = failover;
}

abbrev pub mock_snapshot : Text → DnsSnapshot
mock_snapshot version = record {
  zone = text "gslb.elchi";
  version_hash = version;
  records =
      mock_record (text "listener1.gslb.elchi") (text "A") 300
        (text "192.168.1.10" ∷ text "192.168.1.11" ∷ []) []
      ∷ mock_record (text "listener2.gslb.elchi") (text "A") 300
          (text "192.168.2.20" ∷ text "192.168.2.21" ∷ []) []
      ∷ mock_record (text "listener3.gslb.elchi") (text "AAAA") 600
          (text "2001:db8::1" ∷ text "2001:db8::2" ∷ []) []
      ∷ mock_record (text "asia.gslb.elchi") (text "A") 20 [] (text "europe.gslb.elchi")
      ∷ mock_record (text "europe.gslb.elchi") (text "A") 20
          (text "10.20.1.30" ∷ text "10.20.1.31" ∷ []) []
      ∷ [];
}

abbrev pub mock_changes : Text → DnsChangesResponse
mock_changes version = record {
  unchanged = false;
  zone = (mock_snapshot version).zone;
  version_hash = (mock_snapshot version).version_hash;
  records = (mock_snapshot version).records;
}

pub record MockHealth : Type 0 where
  pub status : Text
  pub zone : Text
  pub records_count : ℕ
  pub version_hash : Text

pub data MockBody : Type 0 where
  error : Text → MockBody
  snapshot : DnsSnapshot → MockBody
  changes : DnsChangesResponse → MockBody
  health : MockHealth → MockBody
  nothing : MockBody

pub record MockResponse : Type 0 where
  pub status_code : ℕ
  pub body : MockBody

-- Get on the headers or the query: the empty text where there is no value.
unfoldable pub get_value : Text → Params → Text
get_value key q = elim (lookup key q) [ none ↦ [] | some v ↦ v ]

abbrev pub respond : ℕ → MockBody → MockResponse
respond code body = record { status_code = code; body = body }

unfoldable pub handle_snapshot : Text → HttpRequest → MockResponse
unfolding list_eqb trim_suffix get_value
handle_snapshot version r =
    if not (get_value (text "X-Elchi-Secret") r.headers == text "test-secret-key")
    then respond 401 (error (text "Unauthorized"))
    else if get_value (text "zone") r.query == []
    then respond 400 (error (text "Missing zone parameter"))
    else if not (
        trim_suffix (get_value (text "zone") r.query) (text ".")
        == trim_suffix (mock_snapshot version).zone (text "."))
    then respond 404 (error (text "Unknown zone"))
    else respond 200 (snapshot (mock_snapshot version))

unfoldable pub handle_changes : Text → HttpRequest → MockResponse
unfolding list_eqb trim_suffix get_value
handle_changes version r =
    if not (get_value (text "X-Elchi-Secret") r.headers == text "test-secret-key")
    then respond 401 (error (text "Unauthorized"))
    else if get_value (text "zone") r.query == []
    then respond 400 (error (text "Missing zone parameter"))
    else if get_value (text "since") r.query == []
    then respond 400 (error (text "Missing since parameter"))
    else if not (
        trim_suffix (get_value (text "zone") r.query) (text ".")
        == trim_suffix (mock_snapshot version).zone (text "."))
    then respond 404 (error (text "Unknown zone"))
    else if get_value (text "since") r.query == (mock_snapshot version).version_hash
    then respond 304 nothing
    else respond 200 (changes (mock_changes version))

abbrev pub handle_health : Text → HttpRequest → MockResponse
handle_health version r = respond 200 (
    health (record {
      status = text "healthy";
      zone = (mock_snapshot version).zone;
      records_count = length (mock_snapshot version).records;
      version_hash = version;
    }))

-- The routes of main, below the address that the endpoint stands for.
unfoldable pub serve_mock : Text → Text → HttpRequest → MockResponse
unfolding handle_snapshot handle_changes list_eqb
serve_mock endpoint version r =
    if r.url == endpoint ++ text "/dns/snapshot"
    then handle_snapshot version r
    else if r.url == endpoint ++ text "/dns/changes"
    then handle_changes version r
    else if r.url == endpoint ++ text "/health"
    then handle_health version r
    else respond 404 (error (text "404 page not found"))

-- encoding/json: what the controller encodes, a client decodes again.
pub record Json (version : Text) : Type 0 where
  pub encode_snapshot : DnsSnapshot → Text
  pub encode_changes : DnsChangesResponse → Text
  pub encode_health : MockHealth → Text
  pub decode_snapshot : Text → Attempt DnsSnapshot
  pub decode_changes : Text → Attempt DnsChangesResponse
  pub decode-encode_snapshot :
      decode_snapshot (encode_snapshot (mock_snapshot version)) ≡ done (mock_snapshot version)
  pub decode-encode_changes :
      decode_changes (encode_changes (mock_changes version)) ≡ done (mock_changes version)

-- The text of a body, which json's Encode and http.Error end with a line feed.
abbrev pub body_text : {version : Text} → Json version → MockBody → Text
body_text json (error m) = m ++ (10 ∷ [])
body_text json (snapshot s) = json.encode_snapshot s
body_text json (changes r) = json.encode_changes r
body_text json (health h) = json.encode_health h
body_text json nothing = []

abbrev pub to_http : {version : Text} → Json version → MockResponse → HttpResponse
to_http json resp = record {
  status_code = resp.status_code;
  body = whole (body_text json resp.body);
}

-- The environment of a call of the mock controller, whose URL has no query of its own.
abbrev pub mock_net : {version : Text} → Json version → Text → Net
mock_net {version} json endpoint = record {
  parse_url = λ url. done [];
  new_request = λ url q. done tt;
  exchange = λ r. done (to_http json (serve_mock endpoint version r));
  unmarshal_snapshot = json.decode_snapshot;
  unmarshal_changes = json.decode_changes;
}
