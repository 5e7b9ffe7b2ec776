-- ===== src/Mock/Answers.antt =====
-- What FetchSnapshot and CheckChanges (client.go) return of the mock controller.
use elchi_gslb.Prelude.{
  insert, ◌≡◌, ◌∙◌, refl, false, [], ◌∷◌, ◌++◌, ◌==◌, nat_eq, list_eq, list_eqb, eqb_refl,
  if◌then◌else◌, arith, Bool-cases, inl, inr,
}
use elchi_gslb.Text.{Text, text}
use elchi_gslb.Client.{
  ElchiClient, ClientError, Params, HttpRequest, ok, err, fetch_snapshot, check_changes,
  unexpected_status, unchanged_response, add_node_ip, add_regions, sign_request,
}
use elchi_gslb.Mock.{
  Json, mock_net, mock_snapshot, mock_changes, respond, snapshot, changes, nothing, error,
  handle_snapshot, handle_changes, serve_mock, get_value,
}
use elchi_gslb.Mock.Requests.{
  get_value-sign_request, get_value-zone, get_value-since, get_value-since_zone, changes_query,
}
use elchi_gslb.Name.{dot}
use elchi_gslb.Text.{trim_suffix}

list_eqb-append : (xs ys zs : Text) → ((xs ++ ys) == (xs ++ zs)) ≡ (ys == zs)
unfolding list_eqb
list_eqb-append [] ys zs = refl
list_eqb-append (x ∷ xs) ys zs = ground (arith, list_eqb-append xs ys zs)

module _ (version : Text) (r : HttpRequest)
    (secret : get_value (text "X-Elchi-Secret") r.headers ≡ text "test-secret-key")
    (zone : get_value (text "zone") r.query ≡ text "gslb.elchi") where
  handle_snapshot-known : handle_snapshot version r ≡ respond 200 (snapshot (mock_snapshot version))
  unfolding handle_snapshot
  handle_snapshot-known = rw (secret, zone) refl

  handle_changes-known :
      (since : Text)
      → get_value (text "since") r.query ≡ since
      → (since == []) ≡ false
      → handle_changes version r ≡ (
          if since == version
          then respond 304 nothing
          else respond 200 (changes (mock_changes version)))
  unfolding handle_changes list_eqb
  handle_changes-known since asked given = rw (secret, zone, asked, given) refl

serve_mock-snapshot :
    (endpoint version : Text) (q headers : Params)
    → serve_mock endpoint version
        (record { url = endpoint ++ text "/dns/snapshot"; query = q; headers = headers })
      ≡ handle_snapshot version
          (record { url = endpoint ++ text "/dns/snapshot"; query = q; headers = headers })
unfolding serve_mock
serve_mock-snapshot endpoint version q headers =
    rw (eqb_refl (endpoint ++ text "/dns/snapshot")) refl

serve_mock-changes :
    (endpoint version : Text) (q headers : Params)
    → serve_mock endpoint version
        (record { url = endpoint ++ text "/dns/changes"; query = q; headers = headers })
      ≡ handle_changes version
          (record { url = endpoint ++ text "/dns/changes"; query = q; headers = headers })
unfolding serve_mock list_eqb
serve_mock-changes endpoint version q headers =
    rw
      (
        list_eqb-append endpoint (text "/dns/changes") (text "/dns/snapshot"),
        eqb_refl (endpoint ++ text "/dns/changes"),
      )
      refl

pub trim_zone : trim_suffix (text "gslb.elchi.") dot ≡ text "gslb.elchi"
unfolding trim_suffix
trim_zone = refl

module _ (version : Text) (r : HttpRequest)
    (other : (get_value (text "X-Elchi-Secret") r.headers == text "test-secret-key") ≡ false) where
  handle_snapshot-unknown : handle_snapshot version r ≡ respond 401 (error (text "Unauthorized"))
  unfolding handle_snapshot
  handle_snapshot-unknown = rw other refl

  handle_changes-unknown : handle_changes version r ≡ respond 401 (error (text "Unauthorized"))
  unfolding handle_changes
  handle_changes-unknown = rw other refl

module _ (version : Text) (json : Json version) (c : ElchiClient) (dated : (version == []) ≡ false)
    (secret : c.secret ≡ text "test-secret-key") (zone : c.zone ≡ text "gslb.elchi") where
  pub fetch_snapshot-mock : fetch_snapshot c (mock_net json c.endpoint) ≡ ok (mock_snapshot version)
  unfolding fetch_snapshot list_eqb
  fetch_snapshot-mock =
      rw
        (
          serve_mock-snapshot c.endpoint version,
          handle_snapshot-known version
              (record {
                url = c.endpoint ++ text "/dns/snapshot";
                query = add_regions c (add_node_ip c (insert (text "zone") c.zone []));
                headers = sign_request c;
              })
              (get_value-sign_request c ∙ secret) (get_value-zone c [] ∙ zone),
          json.decode-encode_snapshot,
          dated,
        )
        refl

  pub check_changes-mock :
      (since : Text)
      → (since == []) ≡ false
      → check_changes c (mock_net json c.endpoint) since
        ≡ ok (if since == version then unchanged_response else mock_changes version)
  unfolding check_changes list_eqb
  check_changes-mock since given =
      rw
        (
          serve_mock-changes c.endpoint version,
          handle_changes-known version
              (record {
                url = c.endpoint ++ text "/dns/changes";
                query = changes_query c since [];
                headers = sign_request c;
              })
              (get_value-sign_request c ∙ secret) (get_value-since_zone c since [] ∙ zone) since
              (get_value-since c since []) given,
        )
        (elim (Bool-cases (since == version)) [
          | inl same ↦ rw same refl
          | inr other ↦ rw (other, json.decode-encode_changes, dated) refl
        ])

abbrev pub unauthorized : ClientError
unauthorized = unexpected_status 401 (text "Unauthorized\n")

module _ (version : Text) (json : Json version) (c : ElchiClient)
    (other : (c.secret == text "test-secret-key") ≡ false) where
  pub fetch_snapshot-refused : fetch_snapshot c (mock_net json c.endpoint) ≡ err unauthorized
  unfolding fetch_snapshot list_eqb
  fetch_snapshot-refused =
      rw
        (
          serve_mock-snapshot c.endpoint version,
          handle_snapshot-unknown version
              (record {
                url = c.endpoint ++ text "/dns/snapshot";
                query = add_regions c (add_node_ip c (insert (text "zone") c.zone []));
                headers = sign_request c;
              })
              (rw (get_value-sign_request c) other),
        )
        refl

  pub check_changes-refused :
      (since : Text) → check_changes c (mock_net json c.endpoint) since ≡ err unauthorized
  unfolding check_changes list_eqb
  check_changes-refused since =
      rw
        (
          serve_mock-changes c.endpoint version,
          handle_changes-unknown version
              (record {
                url = c.endpoint ++ text "/dns/changes";
                query = changes_query c since [];
                headers = sign_request c;
              })
              (rw (get_value-sign_request c) other),
        )
        refl
