-- ===== src/Sync.antt =====
-- InitClient and performSync (elchi.go).
-- A call of the controller takes from `start` to `now`, and meets the environment `net`.
pub mod Stale
pub mod Fresh
pub mod Ready
pub mod Start
pub mod Race
use elchi_gslb.Prelude.{
  ℕ, ◌+◌, ◌-◌, Bool, true, false, not, List, [], ◌∷◌, Option, none, some, ◌==◌, nat_eq, list_eq,
  list_eqb, if◌then◌else◌,
}
use elchi_gslb.Text.{Text, text}
use elchi_gslb.Record.{DnsSnapshot}
use elchi_gslb.Cache.{RecordCache, new_record_cache, replace_from_snapshot, get_version_hash}
use elchi_gslb.Client.{
  Net, Result, ok, err, message, DnsChangesResponse, fetch_snapshot, check_changes,
  new_elchi_client,
}
use elchi_gslb.Plugin.{
  Config, Elchi, Metrics, SyncStatus, success, failure, update_status, inc, observe,
}

abbrev set_status : Text → Option Text → ℕ → Elchi → Elchi
set_status status error now e = record e {
  sync_status = update_status status error now e.sync_status;
}

abbrev count_sync_error : Text → Elchi → Elchi
count_sync_error label e = record e {
  metrics = record e.metrics { sync_errors = inc e.zone label e.metrics.sync_errors };
}

abbrev observe_sync : Text → ℕ → Elchi → Elchi
observe_sync label elapsed e = record e {
  metrics = record e.metrics {
    sync_duration = observe e.zone label elapsed e.metrics.sync_duration;
  };
}

-- A failed sync: counted under its label, and kept as the status.
abbrev sync_failed : Text → Text → ℕ → Elchi → Elchi
sync_failed label error now e = set_status failure (some error) now (count_sync_error label e)

-- ReplaceFromSnapshot and what follows it.
unfoldable pub load_snapshot : Text → DnsSnapshot → ℕ → Elchi → Elchi
unfolding replace_from_snapshot update_status inc
load_snapshot label snapshot now e =
    let (cache, error) = replace_from_snapshot e.cache (some snapshot) e.ttl now in
    elim error [
      | none ↦ set_status success none now (record e { cache = cache })
      | some m ↦ sync_failed label m now (record e { cache = cache })
    ]

-- What performSync does with the result of FetchSnapshot.
abbrev pub after_fetch : Result DnsSnapshot → ℕ → ℕ → Elchi → Elchi
after_fetch (err error) start now e =
    sync_failed (text "snapshot") (message error) now
      (observe_sync (text "snapshot") (now - start) e)
after_fetch (ok snapshot) start now e =
    load_snapshot (text "snapshot") snapshot now (observe_sync (text "snapshot") (now - start) e)

-- The snapshot that a response with changes stands for.
abbrev pub snapshot_of : DnsChangesResponse → DnsSnapshot
snapshot_of changes = record {
  zone = changes.zone;
  version_hash = changes.version_hash;
  records = changes.records;
}

-- What performSync does with the result of CheckChanges.
abbrev pub after_check : Result DnsChangesResponse → ℕ → ℕ → Elchi → Elchi
after_check (err error) start now e =
    sync_failed (text "changes") (message error) now (observe_sync (text "changes") (now - start) e)
after_check (ok changes) start now e =
    if changes.unchanged
    then set_status success none now (observe_sync (text "changes") (now - start) e)
    else load_snapshot (text "changes") (snapshot_of changes) now
        (observe_sync (text "changes") (now - start) e)

-- performSync, where the plugin is `later` when the response arrives: other goroutines may write while
-- the controller is asked, since no lock is held then.
unfoldable pub perform_sync_between : Net → ℕ → ℕ → Elchi → Elchi → Elchi
unfolding load_snapshot observe list_eqb
perform_sync_between net start now e later =
    if get_version_hash e.cache == []
    then after_fetch (fetch_snapshot e.client net) start now later
    else after_check (check_changes e.client net (get_version_hash e.cache)) start now later

-- performSync, where nothing is written meanwhile.
unfoldable pub perform_sync : Net → ℕ → ℕ → Elchi → Elchi
unfolding perform_sync_between
perform_sync net start now e = perform_sync_between net start now e e

-- The state before the first fetch. The counters are those of the process, which outlive a reload;
-- `gauge` is what cacheSize shows.
unfoldable pub fresh_elchi : Config → Metrics → ℕ → Elchi
unfolding new_elchi_client new_record_cache
fresh_elchi config metrics gauge = record {
  config = config;
  client =
      new_elchi_client config.endpoint config.zone config.secret config.node_ip config.regions
        config.timeout config.tls_skip_verify;
  cache = new_record_cache config.zone gauge;
  sync_status = record { last_sync_time = 0; last_sync_status = text "initial"; last_error = [] };
  metrics = metrics;
}

-- What InitClient does with the result of ReplaceFromSnapshot; no error is counted here.
abbrev load_initial : DnsSnapshot → ℕ → Elchi → Elchi
load_initial snapshot now e =
    let (cache, error) = replace_from_snapshot e.cache (some snapshot) e.ttl now in
    elim error [
      | none ↦ set_status success none now (record e { cache = cache })
      | some m ↦ set_status failure (some m) now (record e { cache = cache })
    ]

abbrev pub after_initial_fetch : Result DnsSnapshot → ℕ → Elchi → Elchi
after_initial_fetch (err error) now e = set_status failure (some (message error)) now e
after_initial_fetch (ok snapshot) now e = load_initial snapshot now e

-- InitClient, which returns no error on any path. The webhook server is started before the fetch.
unfoldable pub init_client : Config → Metrics → ℕ → Net → ℕ → Elchi
unfolding replace_from_snapshot update_status
init_client config metrics gauge net now =
    let e = fresh_elchi config metrics gauge in
    after_initial_fetch (fetch_snapshot e.client net) now e
