-- ===== src/Client.antt =====
-- ElchiClient (client.go): the requests to the controller, and how its responses are read.
-- The network, the URL parser and the JSON decoder enter as `Net`, one for each call.
pub mod Laws
pub mod Requests
use elchi_gslb.Prelude.{
  ℕ, zero, suc, ◌+◌, ◌/◌, ◌%◌, Bool, true, false, not, ◌&&◌, List, [], ◌∷◌, ◌++◌, Option, none,
  some, Assoc, insert, ◌==◌, nat_eq, list_eq, list_eqb, is_empty, if◌then◌else◌, ◌≡◌, refl, ◌⊎◌,
  inl, inr,
}
use elchi_gslb.Text.{Text, text, equal_fold, trim_suffix, trim_right_char, join}
use elchi_gslb.Name.{dot}
use elchi_gslb.Record.{DnsRecord, DnsSnapshot}

pub record DnsChangesResponse : Type 0 where
  pub unchanged : Bool
  pub zone : Text
  pub version_hash : Text
  pub records : List DnsRecord

pub record ElchiClient : Type 0 where
  pub endpoint : Text
  pub zone : Text
  pub secret : Text
  pub node_ip : Text
  pub regions : List Text
  pub timeout : ℕ
  pub tls_skip_verify : Bool

-- The endpoint without slashes at its end, and the zone without its final dot.
unfoldable pub new_elchi_client : Text → Text → Text → Text → List Text → ℕ → Bool → ElchiClient
unfolding trim_right_char trim_suffix
new_elchi_client endpoint zone secret node_ip regions timeout tls_skip_verify = record {
  endpoint = trim_right_char b'/' endpoint;
  zone = trim_suffix zone dot;
  secret = secret;
  node_ip = node_ip;
  regions = regions;
  timeout = timeout;
  tls_skip_verify = tls_skip_verify;
}

abbrev pub Params : Type 0
Params = Assoc Text Text

-- A GET request: the URL before its query, the query, and the headers.
pub record HttpRequest : Type 0 where
  pub url : Text
  pub query : Params
  pub headers : Params

-- `body` is `err` where it cannot be read to its end.
pub data Body : Type 0 where
  whole : Text → Body
  broken : Text → Body

pub record HttpResponse : Type 0 where
  pub status_code : ℕ
  pub body : Body

-- An error of the network or of a library, with its message.
pub data Attempt {ℓ} (A : Type ℓ) : Type ℓ where
  done : A → Attempt A
  failed : Text → Attempt A

-- The environment of one call: the query that a URL already has, the check that a request can be
-- made of it, the exchange itself, and the two decoders.
pub record Net : Type 0 where
  pub parse_url : Text → Attempt Params
  pub new_request : Text → Params → Attempt (Unit {0})
  pub exchange : HttpRequest → Attempt HttpResponse
  pub unmarshal_snapshot : Text → Attempt DnsSnapshot
  pub unmarshal_changes : Text → Attempt DnsChangesResponse

-- The errors that the two calls return.
pub data ClientError : Type 0 where
  invalid_endpoint_url create_request request_failed read_body decode_response : Text → ClientError
  unexpected_status : ℕ → Text → ClientError
  missing_zone missing_version_hash : ClientError
  missing_zone_in_changes missing_version_hash_in_changes : ClientError

-- A number in decimal, as "%d" prints it. A number n has at most n + 1 digits, so that fuel is enough.
unfoldable pub decimal_from : ℕ → ℕ → Text → Text
decimal_from zero n after = after
decimal_from (suc fuel) n after =
    let digits = (n % 10 + b'0') ∷ after in
    let more = decimal_from fuel (n / 10) digits in if n / 10 == 0 then digits else more

unfoldable pub decimal : ℕ → Text
unfolding decimal_from
decimal n = decimal_from (suc n) n []

-- err.Error()
unfoldable pub message : ClientError → Text
unfolding decimal
message (invalid_endpoint_url m) = text "invalid endpoint URL: " ++ m
message (create_request m) = text "failed to create request: " ++ m
message (request_failed m) = text "request failed: " ++ m
message (read_body m) = text "failed to read response body: " ++ m
message (decode_response m) = text "failed to decode response: " ++ m
message (unexpected_status code body) =
    text "unexpected status code " ++ (decimal code ++ (text ": " ++ body))
message missing_zone = text "invalid response: missing zone"
message missing_version_hash = text "invalid response: missing version_hash"
message missing_zone_in_changes = text "invalid response: missing zone in changes"
message missing_version_hash_in_changes = text "invalid response: missing version_hash in changes"

pub data Result {ℓ} (A : Type ℓ) : Type ℓ where
  err : ClientError → Result A
  ok : A → Result A

-- The rest of a call, which an error cuts off.
infixl 5 ◌>>=◌
abbrev pub ◌>>=◌ {ℓ κ} : {A : Type ℓ} {B : Type κ} → Result A → (A → Result B) → Result B
err error >>= rest = err error
ok value >>= rest = rest value

pub Result-cases {ℓ} :
    {A : Type ℓ} (r : Result A) → ((a : A) × (r ≡ ok a)) ⊎ ((e : ClientError) × (r ≡ err e))
Result-cases (ok a) = inl (a, refl)
Result-cases (err e) = inr (e, refl)

infixl 5 ◌>>◌
abbrev pub ◌>>◌ {ℓ} : {B : Type ℓ} → Result (Unit {0}) → Result B → Result B
checked >> rest = checked >>= λ _. rest

-- `if err != nil { return nil, fmt.Errorf(...) }`
abbrev or_else {ℓ} : {A : Type ℓ} → (Text → ClientError) → Attempt A → Result A
or_else wrap (done a) = ok a
or_else wrap (failed m) = err (wrap m)

abbrev refuse_if : Bool → ClientError → Result (Unit {0})
refuse_if true e = err e
refuse_if false e = ok tt

abbrev pub status_ok : ℕ
status_ok = 200

abbrev pub status_not_modified : ℕ
status_not_modified = 304

-- addNodeIP
unfoldable pub add_node_ip : ElchiClient → Params → Params
unfolding list_eqb insert
add_node_ip c q = if not (c.node_ip == []) then insert (text "node_ip") c.node_ip q else q

unfoldable pub region_params : List Text → Params → Params
unfolding equal_fold join insert
region_params [] q = q
region_params (r ∷ []) q =
    if equal_fold r (text "all") then q else insert (text "regions") (join (r ∷ []) (text ",")) q
region_params (r ∷ s ∷ rs) q = insert (text "regions") (join (r ∷ s ∷ rs) (text ",")) q

-- addRegions: no parameter where there are no regions, or "all" alone.
unfoldable pub add_regions : ElchiClient → Params → Params
unfolding region_params
add_regions c q = region_params c.regions q

-- signRequest, on a request without headers.
unfoldable pub sign_request : ElchiClient → Params
sign_request c = (text "X-Elchi-Secret", c.secret) ∷ (text "Accept", text "application/json") ∷ []

abbrev read_all : HttpResponse → Result Text
read_all resp = elim resp.body [ whole b ↦ ok b | broken m ↦ err (read_body m) ]

unfoldable pub fetch_snapshot : ElchiClient → Net → Result DnsSnapshot
unfolding add_node_ip add_regions sign_request
fetch_snapshot c net = do
  let url = c.endpoint ++ text "/dns/snapshot"
  given ← or_else invalid_endpoint_url (net.parse_url url)
  let q = add_regions c (add_node_ip c (insert (text "zone") c.zone given))
  or_else create_request (net.new_request url q)
  resp ←
      or_else request_failed
        (net.exchange (record { url = url; query = q; headers = sign_request c }))
  body ← read_all resp
  refuse_if (not (resp.status_code == status_ok)) (unexpected_status resp.status_code body)
  snapshot ← or_else decode_response (net.unmarshal_snapshot body)
  refuse_if (snapshot.zone == []) missing_zone
  refuse_if (snapshot.version_hash == []) missing_version_hash
  ok snapshot

abbrev pub unchanged_response : DnsChangesResponse
unchanged_response = record { unchanged = true; zone = []; version_hash = []; records = [] }

abbrev read_changes : Net → HttpResponse → Result DnsChangesResponse
read_changes net resp = do
  body ← read_all resp
  refuse_if (not (resp.status_code == status_ok)) (unexpected_status resp.status_code body)
  changes ← or_else decode_response (net.unmarshal_changes body)
  refuse_if (not changes.unchanged && changes.zone == []) missing_zone_in_changes
  refuse_if (not changes.unchanged && changes.version_hash == []) missing_version_hash_in_changes
  ok changes

unfoldable pub check_changes : ElchiClient → Net → Text → Result DnsChangesResponse
unfolding add_node_ip add_regions sign_request
check_changes c net since_hash = do
  let url = c.endpoint ++ text "/dns/changes"
  given ← or_else invalid_endpoint_url (net.parse_url url)
  let q =
      add_regions c
        (add_node_ip c (insert (text "since") since_hash (insert (text "zone") c.zone given)))
  or_else create_request (net.new_request url q)
  resp ←
      or_else request_failed
        (net.exchange (record { url = url; query = q; headers = sign_request c }))
  if resp.status_code == status_not_modified then ok unchanged_response else read_changes net resp
