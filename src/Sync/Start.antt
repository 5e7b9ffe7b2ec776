-- ===== src/Sync/Start.antt =====
-- What InitClient (elchi.go) leaves, with a controller and without one.
use elchi_gslb.Prelude.{
  ℕ, ◌≡◌, refl, Bool, true, false, [], some, list_eq, nat_eq, inl, inr, lookup,
}
use elchi_gslb.Text.{Text}
use elchi_gslb.Client.{Net, ClientError, Result, ok, err, fetch_snapshot}
use elchi_gslb.Name.{normalize_domain}
use elchi_gslb.Record.{DnsSnapshot}
use elchi_gslb.Cache.{get, replace_from_snapshot, new_record_cache}
use elchi_gslb.Cache.Spec.{contributions}
use elchi_gslb.Cache.Invariant.{replace-IsValid, new_record_cache-IsValid}
use elchi_gslb.Cache.Valid.{IsValid}
use elchi_gslb.Cache.Replace.{get-replace_from_snapshot}
use elchi_gslb.Client.Laws.{fetch_snapshot_complete}
use elchi_gslb.Plugin.{Config, Elchi, Metrics, success, failure, update_status, ready}
use elchi_gslb.Sync.{fresh_elchi, init_client}
use elchi_gslb.Client.{Result-cases}
use elchi_gslb.Sync.{after_initial_fetch}
use elchi_gslb.Sync.Ready.{not_ready_iff, ready_iff}

-- InitClient has come to a valid cache for the configured zone, to readiness, and to a status.
pub record IsStarted (config : Config) (is_ready : Bool) (status : Text) (e : Elchi) : Type 0 where
  pub valid : IsValid e.cache
  pub zoned : e.cache.zone ≡ config.zone
  pub configured : e.config ≡ config
  pub readiness : ready (some e.cache) ≡ is_ready
  pub status_set : e.sync_status.last_sync_status ≡ status

init_client_lem :
    (config : Config) (metrics : Metrics) (gauge : ℕ) (net : Net) (now : ℕ)
    → init_client config metrics gauge net now
      ≡ after_initial_fetch
          (fetch_snapshot (fresh_elchi config metrics gauge).client net)
          now
          (fresh_elchi config metrics gauge)
unfolding init_client
init_client_lem config metrics gauge net now = refl

module _ (config : Config) (metrics : Metrics) (gauge : ℕ) (net : Net) (now : ℕ) where
  -- Where the first fetch fails, InitClient still succeeds: it leaves a valid, empty cache for the
  -- configured zone, which is not ready, and the failure as the status.
  init_client-IsStarted_without :
      (error : ClientError) (qname : Text) (q : ℕ)
      → fetch_snapshot (fresh_elchi config metrics gauge).client net ≡ err error
      → IsStarted config false failure (init_client config metrics gauge net now)
        × (get (init_client config metrics gauge net now).cache qname q ≡ [])
  unfolding fresh_elchi replace_from_snapshot update_status
  init_client-IsStarted_without error qname q h =
      rw (init_client_lem config metrics gauge net now, h)
        (
          record {
            valid = new_record_cache-IsValid config.zone gauge;
            zoned = refl;
            configured = refl;
            readiness = (not_ready_iff (new_record_cache config.zone gauge)).1 refl;
            status_set = refl;
          },
          unfold get lookup in refl,
        )

  -- Where the first fetch succeeds, the cache is valid and ready, and answers from the snapshot.
  pub init_client-IsStarted_with :
      (s : DnsSnapshot) (qname : Text) (q : ℕ)
      → fetch_snapshot (fresh_elchi config metrics gauge).client net ≡ ok s
      → IsStarted config true success (init_client config metrics gauge net now)
        × (get (init_client config metrics gauge net now).cache qname q
            ≡ contributions config.zone config.ttl (normalize_domain qname) q s.records)
  unfolding fresh_elchi replace_from_snapshot update_status
  init_client-IsStarted_with s qname q h =
      rw (init_client_lem config metrics gauge net now, h)
        (
          record {
            valid =
                replace-IsValid (new_record_cache config.zone gauge)
                  (new_record_cache-IsValid config.zone gauge) (some s) config.ttl now;
            zoned = refl;
            configured = refl;
            readiness =
                (ready_iff _).1
                  (fetch_snapshot_complete (fresh_elchi config metrics gauge).client net s h).1;
            status_set = refl;
          },
          (get-replace_from_snapshot (new_record_cache config.zone gauge) s config.ttl now qname
              q).0,
        )

pub init_client-IsValid :
    (config : Config) (metrics : Metrics) (gauge : ℕ) (net : Net) (now : ℕ)
    → IsValid (init_client config metrics gauge net now).cache
init_client-IsValid config metrics gauge net now =
    elim (Result-cases (fetch_snapshot (fresh_elchi config metrics gauge).client net)) [
      | inl (s, given) ↦
          (init_client-IsStarted_with config metrics gauge net now s [] 0 given).0.valid
      | inr (error, refused) ↦
          (init_client-IsStarted_without config metrics gauge net now error [] 0 refused).0.valid
    ]

after_initial_fetch-timed :
    (answer : Result DnsSnapshot) (now : ℕ) (e : Elchi)
    → ((after_initial_fetch answer now e).sync_status.last_sync_time ≡ now)
      × ((after_initial_fetch answer now e).config ≡ e.config)
unfolding update_status replace_from_snapshot
after_initial_fetch-timed (ok s) now e = (refl, refl)
after_initial_fetch-timed (err error) now e = (refl, refl)

pub init_client-timed :
    (config : Config) (metrics : Metrics) (gauge : ℕ) (net : Net) (now : ℕ)
    → ((init_client config metrics gauge net now).sync_status.last_sync_time ≡ now)
      × ((init_client config metrics gauge net now).config ≡ config)
unfolding fresh_elchi
init_client-timed config metrics gauge net now = rw (init_client_lem config metrics gauge net now) (
    after_initial_fetch-timed (fetch_snapshot (fresh_elchi config metrics gauge).client net) now
      (fresh_elchi config metrics gauge))
