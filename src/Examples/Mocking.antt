-- ===== src/Examples/Mocking.antt =====
-- The plugin and the mock controller at concrete inputs.
use elchi_gslb.Prelude.{◌≡◌, ◌≢◌, refl, [], ◌==◌, some, list_eq, nat_eq, if◌then◌else◌}
use elchi_gslb.Text.{Text, text}
use elchi_gslb.Client.{done, fetch_snapshot}
use elchi_gslb.Plugin.{Elchi, success}
use elchi_gslb.Cache.{get_version_hash, replace_from_snapshot}
use elchi_gslb.Sync.{init_client, fresh_elchi, perform_sync}
use elchi_gslb.Mock.{Json, mock_net, mock_snapshot, mock_changes}
use elchi_gslb.Mock.Session.{perform_sync-mock}
use elchi_gslb.Examples.{config, no_metrics, started, unreachable}

abbrev restart : Text
restart = text "mock-v1-20251126174200"

-- A decoder that knows what this controller sends.
abbrev json : Json restart
json = record {
  encode_snapshot = λ s. text "{snapshot}";
  encode_changes = λ r. text "{changes}";
  encode_health = λ h. text "{health}";
  decode_snapshot = λ body. done (mock_snapshot restart);
  decode_changes = λ body. done (mock_changes restart);
  decode-encode_snapshot = refl;
  decode-encode_changes = refl;
}

restart_dated : restart ≢ []
restart_dated e = cc

started_client :
    (started.client.secret ≡ text "test-secret-key") × (started.client.zone ≡ text "gslb.elchi")
unfolding init_client fresh_elchi fetch_snapshot
started_client = (refl, refl)

abbrev synced : Elchi
synced = perform_sync (mock_net json started.client.endpoint) 500 2000 started

perform_sync-mock_example :
    (synced.cache ≡ (
      if get_version_hash started.cache == restart
      then started.cache
      else (replace_from_snapshot started.cache (some (mock_snapshot restart)) started.ttl 2000).0))
    × (get_version_hash synced.cache ≡ restart)
    × (synced.sync_status.last_sync_status ≡ success)
    × (synced.metrics.sync_errors ≡ started.metrics.sync_errors)
perform_sync-mock_example =
    perform_sync-mock restart json started 500 2000 restart_dated started_client.0 started_client.1

abbrev initialized : Elchi
initialized =
    init_client config no_metrics 0
      (mock_net json (fresh_elchi config no_metrics 0).client.endpoint) 1000

abbrev stranger : Elchi
stranger =
    init_client (record config { secret = text "another-secret" }) no_metrics 0 unreachable 1000

stranger_secret : stranger.client.secret ≡ text "another-secret"
unfolding init_client fresh_elchi fetch_snapshot
stranger_secret = refl

another_secret : text "another-secret" ≢ text "test-secret-key"
another_secret e = cc
