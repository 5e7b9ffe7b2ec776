-- ===== src/Client/Requests.antt =====
-- The requests of ElchiClient (client.go), and when FetchSnapshot succeeds.
use elchi_gslb.Prelude.{
  ℕ, ◌≡◌, ◌≢◌, ◌↔◌, ◌⊎◌, refl, ap, ◌∙◌, Bool, true, false, not, ◌&&◌, List, [], ◌∷◌, ◌++◌, some,
  lookup, insert, lookup-insert, ◌==◌, list_eq, nat_eq, list_eqb_iff, nat_eqb_iff, inl, inr,
  Bool-cases, if◌then◌else◌, arith,
}
use elchi_gslb.Text.{Text, text, equal_fold, join}
use elchi_gslb.Client.{
  ElchiClient, Net, Params, Body, whole, broken, Attempt, done, failed, ok, status_ok, add_node_ip,
  add_regions, region_params, sign_request, fetch_snapshot,
}
use elchi_gslb.Client.Laws.{fetch_snapshot_complete}
use elchi_gslb.Record.{DnsSnapshot}

Attempt-cases {ℓ} :
    {A : Type ℓ} (r : Attempt A) → ((a : A) × (r ≡ done a)) ⊎ ((m : Text) × (r ≡ failed m))
Attempt-cases (done a) = inl (a, refl)
Attempt-cases (failed m) = inr (m, refl)

abbrev pub snapshot_url : ElchiClient → Text
snapshot_url c = c.endpoint ++ text "/dns/snapshot"

-- The query of the request, where the URL has one already.
abbrev pub snapshot_query : ElchiClient → Params → Params
snapshot_query c given = add_regions c (add_node_ip c (insert (text "zone") c.zone given))

-- A successful call, from its URL to its snapshot.
pub record IsFetched (c : ElchiClient) (net : Net) (s : DnsSnapshot) : Type 0 where
  pub given : Params
  pub parsed : net.parse_url (snapshot_url c) ≡ done given
  pub made : net.new_request (snapshot_url c) (snapshot_query c given) ≡ done tt
  pub body : Text
  pub answered :
      net.exchange
        (record { url = snapshot_url c; query = snapshot_query c given; headers = sign_request c })
      ≡ done (record { status_code = status_ok; body = whole body })
  pub decoded : net.unmarshal_snapshot body ≡ done s
  pub zone : s.zone ≢ []
  pub version_hash : s.version_hash ≢ []

module _ (c : ElchiClient) (net : Net) (s : DnsSnapshot) where
  -- A response that was received, read as far as it goes.
  read-IsFetched :
      (given : Params) (code : ℕ) (b : Body)
      → net.parse_url (snapshot_url c) ≡ done given
      → net.new_request (snapshot_url c) (snapshot_query c given) ≡ done tt
      → net.exchange (record {
        url = snapshot_url c;
        query = snapshot_query c given;
        headers = sign_request c;
      })
        ≡ done (record { status_code = code; body = b })
      → fetch_snapshot c net ≡ ok s
      → IsFetched c net s
  unfolding fetch_snapshot
  read-IsFetched given code (broken m) parsed made answered h =
      absurd (cc (rw (parsed, made, answered) at h))
  read-IsFetched given code (whole body) parsed made answered h =
      elim (Bool-cases (code == status_ok)) [
        | inr other ↦ absurd (cc (rw (parsed, made, answered, other) at h))
        | inl fine ↦ elim (Attempt-cases (net.unmarshal_snapshot body)) [
          | inr (m, undecoded) ↦ absurd (cc (rw (parsed, made, answered, fine, undecoded) at h))
          | inl (got, decoded) ↦
              let same : got ≡ s =
                ground (arith, rw (parsed, made, answered, fine, decoded) at h) in
              let complete = fetch_snapshot_complete c net s h in
              record {
                given = given;
                parsed = parsed;
                made = made;
                body = body;
                answered =
                    answered
                    ∙ ap (λ (n : ℕ). done (record { status_code = n; body = whole body }))
                        ((nat_eqb_iff code status_ok).0 fine);
                decoded = decoded ∙ ap (λ (x : DnsSnapshot). done x) same;
                zone = complete.0;
                version_hash = complete.1;
              }
        ]
      ]

  fetched : fetch_snapshot c net ≡ ok s → IsFetched c net s
  unfolding fetch_snapshot
  fetched h = elim (Attempt-cases (net.parse_url (snapshot_url c))) [
    | inr (m, e) ↦ absurd (cc (rw e at h))
    | inl (given, parsed) ↦
        elim (Attempt-cases (net.new_request (snapshot_url c) (snapshot_query c given))) [
          | inr (m, e) ↦ absurd (cc (rw (parsed, e) at h))
          | inl (tt, made) ↦
              elim (Attempt-cases (
                net.exchange (record {
                  url = snapshot_url c;
                  query = snapshot_query c given;
                  headers = sign_request c;
                }))) [
                  | inr (m, e) ↦ absurd (cc (rw (parsed, made, e) at h))
                  | inl (resp, answered) ↦
                      read-IsFetched given resp.status_code resp.body parsed made answered h
                ]
        ]
  ]

  succeeds : IsFetched c net s → fetch_snapshot c net ≡ ok s
  unfolding fetch_snapshot
  succeeds f =
      let z : (s.zone == []) ≡ false = ground (arith, f.zone, list_eqb_iff s.zone []) in
      let v : (s.version_hash == []) ≡ false =
        ground (arith, f.version_hash, list_eqb_iff s.version_hash []) in
      rw (f.parsed, f.made, f.answered, f.decoded, z, v) refl

-- FetchSnapshot succeeds with a snapshot exactly if the URL can be parsed, a request can be made of it,
-- the exchange of that request, signed with the secret, gives status 200 with a body that can be read to
-- its end and decoded as the snapshot, and the snapshot names a zone and a version.
pub fetch_snapshot_iff :
    (c : ElchiClient) (net : Net) (s : DnsSnapshot)
    → (fetch_snapshot c net ≡ ok s) ↔ IsFetched c net s
fetch_snapshot_iff c net s = (fetched c net s, succeeds c net s)

-- Whether a filter by regions is sent: there are some, and they are not "all" alone.
abbrev pub filters_regions : List Text → Bool
filters_regions [] = false
filters_regions (r ∷ []) = not (equal_fold r (text "all"))
filters_regions (r ∷ s ∷ rs) = true

lookup-region_params :
    (key : Text) (rs : List Text) (q : Params)
    → lookup key (region_params rs q) ≡ (
        if filters_regions rs && text "regions" == key
        then some (join rs (text ","))
        else lookup key q)
unfolding region_params
lookup-region_params key [] q = refl
lookup-region_params key (r ∷ []) q =
    ground (arith, lookup-insert (text "regions") key (join (r ∷ []) (text ",")) q)
lookup-region_params key (r ∷ s ∷ rs) q =
    lookup-insert (text "regions") key (join (r ∷ s ∷ rs) (text ",")) q

lookup-add_node_ip :
    (key : Text) (c : ElchiClient) (q : Params)
    → lookup key (add_node_ip c q)
      ≡ (if not (c.node_ip == []) && text "node_ip" == key then some c.node_ip else lookup key q)
unfolding add_node_ip
lookup-add_node_ip key c q = ground (arith, lookup-insert (text "node_ip") key c.node_ip q)

-- The query of a request for a snapshot has the zone, the node's address where there is one, and the
-- regions in one parameter where a filter is sent, in place of whatever the endpoint's own query has
-- there; the rest of that query stays. The request carries the secret.
snapshot_query_lem :
    (c : ElchiClient) (given : Params) (key : Text)
    → (lookup key (snapshot_query c given) ≡ (
        if filters_regions c.regions && text "regions" == key
        then some (join c.regions (text ","))
        else if not (c.node_ip == []) && text "node_ip" == key
        then some c.node_ip
        else if text "zone" == key
        then some c.zone
        else lookup key given))
      × (lookup (text "X-Elchi-Secret") (sign_request c) ≡ some c.secret)
unfolding add_regions sign_request
snapshot_query_lem c given key = (
  lookup-region_params key c.regions _
      ∙ rw
          (
            lookup-add_node_ip key c (insert (text "zone") c.zone given),
            lookup-insert (text "zone") key c.zone given,
          )
          refl,
  unfold lookup in refl,
)
