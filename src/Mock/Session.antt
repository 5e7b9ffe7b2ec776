-- ===== src/Mock/Session.antt =====
-- The plugin and the mock controller together: InitClient, and the syncs after it (elchi.go).
use elchi_gslb.Prelude.{
  ℕ, ◌≡◌, ◌≢◌, ◌∙◌, refl, ap, true, false, [], some, ◌==◌, nat_eq, list_eq, list_eqb_iff,
  if◌then◌else◌, arith, Bool-cases, inl, inr,
}
use elchi_gslb.Text.{Text, text}
use elchi_gslb.Client.{message, Net, ok, fetch_snapshot}
use elchi_gslb.Mock.{Json, mock_net, mock_snapshot}
use elchi_gslb.Mock.Answers.{
  fetch_snapshot-mock, check_changes-mock, fetch_snapshot-refused, check_changes-refused,
  unauthorized, trim_zone,
}
use elchi_gslb.Cache.{replace_from_snapshot, get_version_hash}
use elchi_gslb.Plugin.{Elchi, Metrics, Config, success, ready}
use elchi_gslb.Sync.{perform_sync, init_client, fresh_elchi}
use elchi_gslb.Cache.{get}
use elchi_gslb.Cache.Spec.{contributions}
use elchi_gslb.Name.{normalize_domain, dot}
use elchi_gslb.Text.{trim_suffix}
use elchi_gslb.Sync.Start.{init_client-IsStarted_with}
use elchi_gslb.Sync.Stale.{HasFailed, perform_sync-HasFailed}

module _ (version : Text) (json : Json version) (e : Elchi) (start now : ℕ) where
  abbrev synced : Elchi
  synced = perform_sync (mock_net json e.client.endpoint) start now e

  -- One sync with the mock controller brings a plugin that has its secret and its zone up to date, in
  -- whatever state it was: the cache is kept where it has the controller's version, and is otherwise
  -- the controller's snapshot. The version is the controller's then, and the sync is a success.
  pub perform_sync-mock :
      version ≢ []
      → e.client.secret ≡ text "test-secret-key"
      → e.client.zone ≡ text "gslb.elchi"
      → (synced.cache ≡ (
          if get_version_hash e.cache == version
          then e.cache
          else (replace_from_snapshot e.cache (some (mock_snapshot version)) e.ttl now).0))
        × (get_version_hash synced.cache ≡ version)
        × (synced.sync_status.last_sync_status ≡ success)
        × (synced.metrics.sync_errors ≡ e.metrics.sync_errors)
  unfolding perform_sync
  perform_sync-mock nonempty secret zone =
      let hash : Text = get_version_hash e.cache in
      let dated : (version == []) ≡ false = ground (arith, list_eqb_iff version []) in
      elim (Bool-cases (hash == [])) [
        | inl empty ↦
            let other : (hash == version) ≡ false =
              ground (arith, list_eqb_iff hash [], list_eqb_iff hash version) in
            rw (empty, other, fetch_snapshot-mock version json e.client dated secret zone)
              (refl, refl, refl, refl)
        | inr given ↦
            rw (given, check_changes-mock version json e.client dated secret zone hash given)
              (elim (Bool-cases (hash == version)) [
                | inl same ↦ rw same (refl, (list_eqb_iff hash version).0 same, refl, refl)
                | inr other ↦ rw other (refl, refl, refl, refl)
              ])
      ]

module _ (version : Text) (json : Json version) (config : Config) (metrics : Metrics)
    (gauge now : ℕ) where
  abbrev fresh : Elchi
  fresh = fresh_elchi config metrics gauge

  abbrev initialized : Elchi
  initialized = init_client config metrics gauge (mock_net json fresh.client.endpoint) now

  fresh_secret : fresh.client.secret ≡ config.secret
  unfolding fresh_elchi
  fresh_secret = refl

  fresh_zone : fresh.client.zone ≡ trim_suffix config.zone dot
  unfolding fresh_elchi
  fresh_zone = refl

  -- A plugin for the zone of the mock controller, with its secret, is ready once InitClient has
  -- returned, and answers every query with what the controller's records contribute.
  init_client-mock :
      (qname : Text) (q : ℕ)
      → version ≢ []
      → config.secret ≡ text "test-secret-key"
      → config.zone ≡ text "gslb.elchi."
      → (ready (some initialized.cache) ≡ true)
        × (initialized.sync_status.last_sync_status ≡ success)
        × (get initialized.cache qname q
            ≡ contributions config.zone config.ttl
                (normalize_domain qname)
                q
                (mock_snapshot version).records)
  init_client-mock qname q nonempty secret zone =
      let dated : (version == []) ≡ false = ground (arith, list_eqb_iff version []) in
      let given : fetch_snapshot fresh.client (mock_net json fresh.client.endpoint)
          ≡ ok (mock_snapshot version) =
        fetch_snapshot-mock version json fresh.client dated (fresh_secret ∙ secret)
          (fresh_zone ∙ ap (λ (z : Text). trim_suffix z dot) zone ∙ trim_zone) in
      let (started, answers) =
        init_client-IsStarted_with config metrics gauge (mock_net json fresh.client.endpoint) now
          (mock_snapshot version) qname q given in
      (started.readiness, started.status_set, answers)

-- With another secret than the mock controller's, the sync fails: the cache is kept, the failure is
-- counted under the call that was made, and the status tells of the 401.
perform_sync-mock_unauthorized :
    (version : Text) (json : Json version) (e : Elchi) (start now : ℕ)
    → e.client.secret ≢ text "test-secret-key"
    → HasFailed e
        (perform_sync (mock_net json e.client.endpoint) start now e)
        (if get_version_hash e.cache == [] then text "snapshot" else text "changes")
        (text "unexpected status code 401: Unauthorized\n")
        now
unfolding message
perform_sync-mock_unauthorized version json e start now different =
    let hash : Text = get_version_hash e.cache in
    let other : (e.client.secret == text "test-secret-key") ≡ false =
      ground (arith, list_eqb_iff e.client.secret (text "test-secret-key")) in
    let net : Net = mock_net json e.client.endpoint in
    elim (Bool-cases (hash == [])) [
      | inl empty ↦ rw empty (
          perform_sync-HasFailed net start now e unauthorized (text "snapshot") (
            inl (
              (list_eqb_iff hash []).0 empty,
              fetch_snapshot-refused version json e.client other,
              refl,
            )))
      | inr given ↦ rw given (
          perform_sync-HasFailed net start now e unauthorized (text "changes") (
            inr (
              (λ none_yet. ground (arith, list_eqb_iff hash [])),
              check_changes-refused version json e.client other hash,
              refl,
            )))
    ]
