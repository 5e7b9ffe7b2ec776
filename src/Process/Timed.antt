-- ===== src/Process/Timed.antt =====
-- The goroutines of the plugin with the clock (elchi.go), and what /health (webhook.go) answers meanwhile.
use elchi_gslb.Prelude.{ℕ, ◌+◌, ◌≤◌, ◌<◌, ◌≡◌, refl, sym, subst, ◌∙◌, List, list_eq, nat_eq, arith}
use elchi_gslb.Text.{Text, text}
use elchi_gslb.Client.{Net, Result, ok, err, fetch_snapshot}
use elchi_gslb.Record.{DnsSnapshot}
use elchi_gslb.Cache.{replace_from_snapshot, RecordCache}
use elchi_gslb.Plugin.{Config, Elchi, Metrics, update_status}
use elchi_gslb.Serve.{Dns, Query, serve_dns_between}
use elchi_gslb.Setup.{Caddy, Settings, accepted}
use elchi_gslb.Setup.Loops.{parse_elchi}
use elchi_gslb.Setup.Accepts.{IsRunnable, parse_elchi-IsRunnable}
use elchi_gslb.Sync.{init_client, perform_sync_between, after_initial_fetch, load_snapshot}
use elchi_gslb.Sync.Start.{init_client-timed}
use elchi_gslb.Webhook.Degraded.{IsRecent, recent_not_degraded, not_degraded, handle-sync_status}
use elchi_gslb.Webhook.{Request, Endpoint, handle, status_ok}
use elchi_gslb.Webhook.Notify.{handle-config, updates_lem, deletes_lem}
use elchi_gslb.Process.{
  Process, waiting, begin, Step, loads, ticks, asks, answered, returns, arrives, merges, deletes,
  handles, looks_up, serves, shuts_down, shutdown,
}
use elchi_gslb.Process.Shutdown.{serves-sync_status}

-- A step that sets the time of the last sync reads the clock.
abbrev pub IsAt : (now : ℕ) {dns : Dns} {p p' : Process} → Step dns p p' → Type 0
IsAt now (loads net t _) = t ≡ now
IsAt now (answered net before start t _) = t ≡ now
IsAt now (ticks _) = Unit
IsAt now (asks start _ _) = Unit
IsAt now (returns _ _) = Unit
IsAt now (arrives endpoint r _) = Unit
IsAt now (merges before after r req t _ _) = Unit
IsAt now (deletes before after dels t _) = Unit
IsAt now (handles before after endpoint r t _ _) = Unit
IsAt now (looks_up q _) = Unit
IsAt now (serves before after q first _) = Unit
IsAt now (shuts_down _) = Unit

-- When the latest sync ended, if this step follows: InitClient's and performSync's end with the step
-- that has their response.
abbrev pub synced_after : (now synced : ℕ) {dns : Dns} {p p' : Process} → Step dns p p' → ℕ
synced_after now synced (loads net t _) = now
synced_after now synced (answered net before start t _) = now
synced_after now synced (ticks _) = synced
synced_after now synced (asks start _ _) = synced
synced_after now synced (returns _ _) = synced
synced_after now synced (arrives endpoint r _) = synced
synced_after now synced (merges before after r req t _ _) = synced
synced_after now synced (deletes before after dels t _) = synced
synced_after now synced (handles before after endpoint r t _ _) = synced
synced_after now synced (looks_up q _) = synced
synced_after now synced (serves before after q first _) = synced
synced_after now synced (shuts_down _) = synced

-- The states that can follow, with their times and the times at which the latest sync ended before
-- them. The clock moves as far as the ticker and the client's timeout let it: from the end of one sync
-- to that of the next, no more than an interval and a timeout. What the plugin notes of its syncs does
-- not come into it.
pub data Timed (dns : Dns) (config : Config) (now₀ : ℕ) (p₀ : Process)
    : ℕ → ℕ → Process → Type 0 where
  start : Timed dns config now₀ p₀ now₀ now₀ p₀
  waits :
      {now synced : ℕ} {p : Process} (later : ℕ)
      → Timed dns config now₀ p₀ now synced p
      → now ≤ later
      → later ≤ synced + config.sync_interval + config.timeout
      → Timed dns config now₀ p₀ later synced p
  acts :
      {now synced : ℕ} {p p' : Process} (step : Step dns p p')
      → IsAt now step
      → Timed dns config now₀ p₀ now synced p
      → Timed dns config now₀ p₀ now (synced_after now synced step) p'

initial-time :
    (r : Result DnsSnapshot) (now : ℕ) (e : Elchi)
    → ((after_initial_fetch r now e).sync_status.last_sync_time ≡ now)
      × ((after_initial_fetch r now e).config ≡ e.config)
unfolding replace_from_snapshot update_status
initial-time (err m) now e = (refl, refl)
initial-time (ok s) now e = (refl, refl)

sync-time :
    (net : Net) (begun now : ℕ) (before e : Elchi)
    → ((perform_sync_between net begun now before e).sync_status.last_sync_time ≡ now)
      × ((perform_sync_between net begun now before e).config ≡ e.config)
unfolding perform_sync_between load_snapshot
sync-time net begun now before e = ground arith

-- The configuration is kept, the time of the latest sync is what the plugin has as that of its last
-- one, and it is recent.
record IsLive (config : Config) (now synced : ℕ) (e : Elchi) : Type 0 where
  configured : e.config ≡ config
  noted : e.sync_status.last_sync_time ≡ synced
  recent : now ≤ synced + config.sync_interval + config.timeout

-- What changes neither the configuration nor the time of the last sync.
untouched :
    (config : Config) (now synced : ℕ) (e e' : Elchi)
    → e'.config ≡ e.config
    → e'.sync_status ≡ e.sync_status
    → IsLive config now synced e
    → IsLive config now synced e'
untouched config now synced e e' same_config same_status h = record {
  configured = same_config ∙ h.configured;
  noted = rw same_status h.noted;
  recent = h.recent;
}

just_synced :
    (config : Config) (now synced : ℕ) (e e' : Elchi)
    → (e'.sync_status.last_sync_time ≡ now) × (e'.config ≡ e.config)
    → IsLive config now synced e
    → IsLive config now now e'
just_synced config now synced e e' (timed, same_config) h = record {
  configured = same_config ∙ h.configured;
  noted = timed;
  recent = omega arith;
}

serves-config :
    (dns : Dns) (second : RecordCache) (e : Elchi) (q : Query)
    → (serve_dns_between dns second e q).0.config ≡ e.config
unfolding serve_dns_between
serves-config dns second e q = ground arith

module _ (dns : Dns) (config : Config) (now synced : ℕ) where
  Step-IsLive :
      {p p' : Process} (step : Step dns p p')
      → IsAt now step
      → IsLive config now synced p.elchi
      → IsLive config now (synced_after now synced step) p'.elchi
  unfolding shutdown
  Step-IsLive {p} (loads net t _) same h =
      just_synced config now synced p.elchi
        (after_initial_fetch (fetch_snapshot p.elchi.client net) t p.elchi)
        (let (timed, kept) = initial-time (fetch_snapshot p.elchi.client net) t p.elchi in
          (timed ∙ same, kept))
        h
  Step-IsLive {p} (answered net before begun t _) same h =
      just_synced config now synced p.elchi (perform_sync_between net begun t before p.elchi)
        (let (timed, kept) = sync-time net begun t before p.elchi in (timed ∙ same, kept)) h
  Step-IsLive (ticks _) same h = h
  Step-IsLive (asks begun _ _) same h = h
  Step-IsLive (returns _ _) same h = h
  Step-IsLive (arrives endpoint r _) same h = h
  Step-IsLive {p} (merges before after r req t _ _) same h =
      rw (updates_lem t p.elchi req.records) (untouched config now synced p.elchi _ refl refl h)
  Step-IsLive {p} (deletes before after dels t _) same h =
      rw (deletes_lem t p.elchi dels) (untouched config now synced p.elchi _ refl refl h)
  Step-IsLive {p} (handles before after endpoint r t _ _) same h =
      untouched config now synced p.elchi (handle endpoint t p.elchi r).0
        (handle-config endpoint t p.elchi r) (handle-sync_status endpoint t p.elchi r) h
  Step-IsLive (looks_up q _) same h = h
  Step-IsLive {p} (serves before after q first _) same h =
      let e : Elchi = record p.elchi { cache = first } in
      untouched config now synced p.elchi (serve_dns_between dns p.elchi.cache e q).0
        (serves-config dns p.elchi.cache e q) (serves-sync_status dns p.elchi.cache e q) h
  Step-IsLive (shuts_down _) same h = h

Timed-IsLive :
    (dns : Dns) (config : Config) (now₀ : ℕ) (p₀ : Process) {now synced : ℕ} {p : Process}
    → Timed dns config now₀ p₀ now synced p
    → IsLive config now₀ now₀ p₀.elchi
    → IsLive config now synced p.elchi
Timed-IsLive dns config now₀ p₀ start h = h
Timed-IsLive dns config now₀ p₀ (waits later run _ bound) h =
    let live = Timed-IsLive dns config now₀ p₀ run h in
    record { configured = live.configured; noted = live.noted; recent = bound }
Timed-IsLive dns config now₀ p₀ (acts {now} {synced} step same run) h =
    Step-IsLive dns config now synced step same (Timed-IsLive dns config now₀ p₀ run h)

-- InitClient has returned.
abbrev pub initialized : Config → Metrics → ℕ → Net → ℕ → Process
initialized config metrics gauge net now = record (begin config metrics gauge) {
  background = waiting;
  elchi = init_client config metrics gauge net now;
}

-- Whatever configuration parseElchi accepts, and however the critical sections of queries, requests and
-- syncs fall after InitClient: as long as no more than a sync interval and a timeout go by from the end
-- of one sync to that of the next, successful or not, a GET of /health is answered 200, even if every
-- sync failed: a failed sync counts as the last one.
pub Timed-never_degraded :
    (caddy : Caddy) (keys : List Text) (c : caddy.Controller) (s : Settings) (dns : Dns)
    (metrics : Metrics) (gauge : ℕ) (net : Net) (now₀ now synced : ℕ) (p : Process) (r : Request)
    → parse_elchi caddy keys c ≡ accepted s
    → Timed dns s.config now₀ (initialized s.config metrics gauge net now₀) now synced p
    → r.method ≡ text "GET"
    → (handle Endpoint.health now p.elchi r).1.status_code ≡ status_ok
Timed-never_degraded caddy keys c s dns metrics gauge net now₀ now synced p r parsed run get =
    let (timed, configured) = init_client-timed s.config metrics gauge net now₀ in
    let live : IsLive s.config now synced p.elchi =
      Timed-IsLive dns s.config now₀ (initialized s.config metrics gauge net now₀) run
        (record { configured = configured; noted = timed; recent = omega arith }) in
    let runnable : IsRunnable s.config = parse_elchi-IsRunnable caddy keys c s parsed in
    let recent : IsRecent s.config now p.elchi = rw live.noted live.recent in
    not_degraded now p.elchi r get (
      recent_not_degraded now p.elchi
        (subst (λ (c : Config). c.timeout < c.sync_interval) (sym live.configured)
          runnable.interval_above_timeout)
        (subst (λ (c : Config). IsRecent c now p.elchi) (sym live.configured) recent))
