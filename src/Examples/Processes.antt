-- ===== src/Examples/Processes.antt =====
-- The goroutines of the plugin at concrete inputs: a query in flight while a sync loads its changes,
-- and a sync in flight while the plugin shuts down.
use mathlib.Core.List.{Memᴰ}
use elchi_gslb.Process.Listing.{Reach-Lists, Reach-domain_count}
use elchi_gslb.Cache.Domains.{IsAnswered}
use elchi_gslb.Cache.{domain_count}
use elchi_gslb.Prelude.{length}
use elchi_gslb.Cache.Index.{Key}
use elchi_gslb.Cache.Listed.{Lists, IsAnsweredAt}
use elchi_gslb.Cache.{get_all_records}
use elchi_gslb.Prelude.{
  ℕ, List, ◌↔◌, ◌≤◌, Once, ◌≡◌, refl, true, false, [], ◌∷◌, some, inl, list_eq, nat_eq,
}
use elchi_gslb.Text.{Text, text}
use elchi_gslb.Examples.{config, no_metrics, controller, unreachable, dns, ask, snapshot}
use elchi_gslb.Name.{normalize_domain, outside_zone}
use elchi_gslb.Record.{Rr}
use elchi_gslb.Cache.{get, replace_from_snapshot, load_record, load_records, new_record_cache}
use elchi_gslb.Cache.Nested.{append_at}
use elchi_gslb.Ip.{parse_ip, to_4}
use elchi_gslb.Record.Build.{v4_of, build_dns_records}
use elchi_gslb.Plugin.{ready}
use elchi_gslb.Serve.{written, serve_dns_between}
use elchi_gslb.Serve.Answers.{IsSound}
use elchi_gslb.Sync.{init_client, fresh_elchi, perform_sync_between, after_initial_fetch}
use elchi_gslb.Sync.Fresh.{Given}
use elchi_gslb.Client.{fetch_snapshot, check_changes}
use elchi_gslb.Process.{
  Process, Background, Server, querying, begin, shutdown, loads, ticks, asks, answered, returns,
  looks_up, Reach, here, next,
}
use elchi_gslb.Process.Safety.{Reach-IsSound, Reach-ready}
use elchi_gslb.Process.Shutdown.{IsDown, IsClosing, IsPaid, left, shutdown-IsPaid}
use elchi_gslb.Webhook.{apply_deletes, count_webhook}
use elchi_gslb.Examples.{notification}
use elchi_gslb.Process.{deleting, deletes}
use elchi_gslb.Process.Ending.{shutdown-IsDown, shutdown-Given}
use elchi_gslb.Process.Writes.{load}
use elchi_gslb.Process.History.{writes}
use elchi_gslb.Sync.{snapshot_of}
use elchi_gslb.Examples.{later_snapshot}
use elchi_gslb.Process.Answers.{answer_of, Reach-answers}

abbrev starting : Process
starting = begin config no_metrics 0

abbrev after_load : Process
after_load = record starting {
  background = Background.waiting;
  elchi =
      after_initial_fetch (fetch_snapshot starting.elchi.client (controller 200)) 1000
        starting.elchi;
}

-- A query for a name in failover has met its CNAME.
abbrev with_query : Process
with_query = record after_load {
  in_flight = querying (ask "ASIA.gslb.elchi." 1) after_load.elchi.cache ∷ [];
}

abbrev syncing : Process
syncing = record with_query { background = Background.asking with_query.elchi 2000; ticked = false }

-- The changes take the CNAME away.
abbrev synced : Process
synced = record syncing {
  background = Background.waiting;
  elchi = perform_sync_between (controller 200) 2000 3000 syncing.elchi syncing.elchi;
}

to_syncing : Reach dns starting syncing
to_syncing =
    next
      (next
        (next (next here (loads (controller 200) 1000 refl))
          (looks_up (ask "ASIA.gslb.elchi." 1) (λ e. cc)))
        (ticks refl))
      (asks 2000 refl refl)

to_synced : Reach dns starting synced
to_synced = next to_syncing (answered (controller 200) syncing.elchi 2000 3000 refl)

still_cname :
    (serve_dns_between dns synced.elchi.cache
      (record synced.elchi { cache = after_load.elchi.cache })
      (ask "ASIA.gslb.elchi." 1)).1
    ≡ written
        (record {
          rcode = 0;
          authoritative = true;
          answer =
              Rr.cname
                (record { name = text "asia.gslb.elchi."; rrtype = 5; class = 1; ttl = 20 })
                (text "europe.gslb.elchi.")
              ∷ [];
        })
        0
unfolding init_client fresh_elchi fetch_snapshot perform_sync_between check_changes
    serve_dns_between get replace_from_snapshot load_records load_record new_record_cache
    build_dns_records v4_of parse_ip to_4 normalize_domain outside_zone append_at
still_cname = refl

Reach-IsSound_example :
    IsSound
      (ask "ASIA.gslb.elchi." 1)
      (record {
        rcode = 0;
        authoritative = true;
        answer =
            Rr.cname
              (record { name = text "asia.gslb.elchi."; rrtype = 5; class = 1; ttl = 20 })
              (text "europe.gslb.elchi.")
            ∷ [];
      })
      0
Reach-IsSound_example =
    Reach-IsSound dns config no_metrics 0 synced [] [] (ask "ASIA.gslb.elchi." 1)
      after_load.elchi.cache _ 0 to_synced refl still_cname

loaded_ready : ready (some after_load.elchi.cache) ≡ true
unfolding fresh_elchi fetch_snapshot ready replace_from_snapshot
loaded_ready = refl

from_loaded : Reach dns after_load synced
from_loaded =
    next
      (next (next (next here (looks_up (ask "ASIA.gslb.elchi." 1) (λ e. cc))) (ticks refl))
        (asks 2000 refl refl))
      (answered (controller 200) syncing.elchi 2000 3000 refl)

Reach-ready_example : ready (some synced.elchi.cache) ≡ true
Reach-ready_example = Reach-ready dns after_load synced from_loaded loaded_ready

-- A notification whose records are merged is in flight as well.
abbrev notifying : Process
notifying = record syncing { in_flight = deleting notification.deletes ∷ syncing.in_flight }

-- The plugin after a Shutdown that met it so, once the sync has its response and the loop has returned;
-- and then with the notification done.
abbrev down : Process
down = record notifying {
  background = Background.ended;
  elchi = perform_sync_between (controller 200) 2000 3000 syncing.elchi syncing.elchi;
  server = Server.closed;
  cancelled = true;
}

to_down : Reach dns (shutdown notifying) down
unfolding shutdown
to_down =
    next (next here (answered (controller 200) syncing.elchi 2000 3000 refl)) (returns refl refl)

abbrev notified : Process
notified = record down {
  elchi =
      count_webhook (text "notify") (text "success")
        (apply_deletes 4000 down.elchi notification.deletes).0;
  in_flight = syncing.in_flight;
}

shutdown-IsPaid_example :
    IsClosing notified
    × (notified.background ≡ Background.ended)
    × (left notified.in_flight ≤ left down.in_flight)
    × (left down.in_flight ≤ left notifying.in_flight)
    × IsPaid down notified
shutdown-IsPaid_example =
    shutdown-IsPaid dns notifying to_down refl
      (next here (deletes [] syncing.in_flight notification.deletes 4000 refl))

shutdown-IsDown_example : (p' : Process) × (Reach dns (shutdown syncing) p') × IsDown p'
shutdown-IsDown_example = shutdown-IsDown dns unreachable 3000 syncing (λ e. cc)

-- The controller answers a first sync while the plugin shuts down.
abbrev stuck : Process
stuck = record starting { background = Background.asking starting.elchi 2000 }

stuck_hash : starting.elchi.cache.version_hash ≡ []
unfolding fresh_elchi new_record_cache
stuck_hash = refl

stuck-Given : Given (controller 200) starting.elchi snapshot
unfolding fresh_elchi fetch_snapshot new_record_cache
stuck-Given = inl (refl, refl)

shutdown-Given_example :
    (p' : Process) × (Reach dns (shutdown stuck) p')
    × (p'.cancelled ≡ true)
    × (p'.elchi.cache
        ≡ (replace_from_snapshot stuck.elchi.cache (some snapshot) stuck.elchi.ttl 3000).0)
shutdown-Given_example =
    shutdown-Given dns (controller 200) starting.elchi 2000 3000 stuck snapshot refl stuck-Given

-- What is listed once the changes are in.
Reach-Lists_example :
    (ks : List Key) × Lists synced.elchi.cache ks (get_all_records synced.elchi.cache)
    × Once ks
    × ((d : Text) (q : ℕ) → Memᴰ (d, q) ks ↔ IsAnsweredAt synced.elchi.cache d q)
Reach-Lists_example = Reach-Lists dns config no_metrics 0 synced to_synced

-- The writes of the run: the first snapshot, and then that of the changes.
two_loads : writes dns to_synced ≡ load (snapshot_of later_snapshot) 300 ∷ load snapshot 300 ∷ []
unfolding to_synced to_syncing fresh_elchi fetch_snapshot check_changes replace_from_snapshot
two_loads = refl

Reach-answers_example :
    get synced.elchi.cache (text "asia.gslb.elchi.") 1
    ≡ answer_of config.zone (normalize_domain (text "asia.gslb.elchi.")) 1 (writes dns to_synced)
Reach-answers_example =
    Reach-answers dns config no_metrics 0 synced to_synced (text "asia.gslb.elchi.") 1

Reach-domain_count_example :
    (ds : List Text) × (length ds ≡ domain_count synced.elchi.cache)
    × Once ds
    × ((d : Text) → Memᴰ d ds ↔ IsAnswered synced.elchi.cache d)
Reach-domain_count_example = Reach-domain_count dns config no_metrics 0 synced to_synced
