-- ===== src/Examples/Syncing.antt =====
-- InitClient and performSync (elchi.go) at concrete inputs.
use elchi_gslb.Prelude.{◌≡◌, ◌≢◌, refl, true, false, [], ◌∷◌, some, list_eq, nat_eq, inr, ◌↔◌}
use elchi_gslb.Text.{text}
use elchi_gslb.Examples.{
  asia_back, snapshot, later_snapshot, config, no_metrics, controller, unreachable, started,
  stranded,
}
use elchi_gslb.Client.{message, ok, err, fetch_snapshot, check_changes}
use elchi_gslb.Name.{normalize_domain}
use elchi_gslb.Record.{DnsSnapshot}
use elchi_gslb.Cache.{get}
use elchi_gslb.Cache.Spec.{contributions}
use elchi_gslb.Plugin.{ready}
use elchi_gslb.Sync.{perform_sync, snapshot_of, fresh_elchi, init_client}
use elchi_gslb.Record.{type_a}
use elchi_gslb.Sync.Stale.{HasFailed, perform_sync-HasFailed}
use elchi_gslb.Sync.Fresh.{succeeded, get-perform_sync}
use elchi_gslb.Sync.Ready.{ready_after_sync_iff}
use elchi_gslb.Client.{request_failed}
use elchi_gslb.Sync.{perform_sync_between}
use elchi_gslb.Sync.Race.{perform_sync_between-eq-perform_sync}
use elchi_gslb.Webhook.{Endpoint, handle}
use elchi_gslb.Examples.{notify_request}

started_fetch :
    fetch_snapshot (fresh_elchi config no_metrics 0).client (controller 200) ≡ ok snapshot
unfolding fetch_snapshot fresh_elchi
started_fetch = refl

stranded_fetch :
    fetch_snapshot (fresh_elchi config no_metrics 0).client unreachable
    ≡ err (request_failed (text "connection refused"))
unfolding fetch_snapshot fresh_elchi
stranded_fetch = refl

started_hash : started.cache.version_hash ≡ text "v1"
unfolding init_client fresh_elchi fetch_snapshot
started_hash = refl

started_known : started.cache.version_hash ≢ []
started_known e = cc started_hash

started_refused :
    check_changes started.client unreachable started.cache.version_hash
    ≡ err (request_failed (text "connection refused"))
unfolding init_client fresh_elchi fetch_snapshot check_changes
started_refused = refl

perform_sync-HasFailed_example :
    HasFailed started
      (perform_sync unreachable 2000 3000 started)
      (text "changes")
      (message (request_failed (text "connection refused")))
      3000
perform_sync-HasFailed_example =
    perform_sync-HasFailed unreachable 2000 3000 started
      (request_failed (text "connection refused")) (text "changes")
      (inr (started_known, started_refused, refl))

changes_given :
    check_changes started.client (controller 200) started.cache.version_hash ≡ ok later_snapshot
unfolding init_client fresh_elchi fetch_snapshot check_changes
changes_given = refl

get-perform_sync_example :
    (get (perform_sync (controller 200) 2000 3000 started).cache (text "asia.gslb.elchi") type_a
      ≡ contributions started.cache.zone started.ttl
          (normalize_domain (text "asia.gslb.elchi"))
          type_a
          (asia_back ∷ []))
    × ((perform_sync (controller 200) 2000 3000 started).cache.version_hash ≡ text "v2")
    × (text "v2" ≢ [])
    × ((perform_sync (controller 200) 2000 3000 started).sync_status ≡ succeeded 3000)
get-perform_sync_example =
    get-perform_sync (controller 200) 2000 3000 started (snapshot_of later_snapshot)
      (text "asia.gslb.elchi") type_a
      (inr (started_known, (later_snapshot, changes_given, refl, refl)))

stranded_not_ready : ready (some stranded.cache) ≡ false
unfolding init_client fresh_elchi fetch_snapshot ready
stranded_not_ready = refl

ready_after_sync_iff_example :
    (ready (some (perform_sync (controller 200) 2000 3000 stranded).cache) ≡ true)
    ↔ ((s : DnsSnapshot) × (fetch_snapshot stranded.client (controller 200) ≡ ok s))
ready_after_sync_iff_example =
    ready_after_sync_iff (controller 200) 2000 3000 stranded stranded_not_ready

perform_sync_between-eq-perform_sync_example :
    get
      (perform_sync_between
        (controller 200)
        2000
        3000
        started
        (handle Endpoint.notify 2500 started notify_request).0).cache
      (text "listener1.gslb.elchi")
      type_a
    ≡ get
        (perform_sync (controller 200) 2000 3000 started).cache
        (text "listener1.gslb.elchi")
        type_a
perform_sync_between-eq-perform_sync_example =
    perform_sync_between-eq-perform_sync (controller 200) 2000 2500 3000 started notify_request
      (snapshot_of later_snapshot) (text "listener1.gslb.elchi") type_a
      (inr (started_known, (later_snapshot, changes_given, refl, refl)))
