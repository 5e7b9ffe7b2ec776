-- ===== src/Process.antt =====
-- The goroutines of the plugin (elchi.go, webhook.go): InitClient up to its first snapshot, the loop of
-- backgroundSync, the webhook server and the queries, one critical section at a time, until Shutdown.
-- What waits between two critical sections stands in the state: a request that is taken, the deletions of
-- a notification, the second lookup of a query, a sync that waits for its response.
pub mod Between
pub mod Accepted
pub mod Kept
pub mod Safety
pub mod Shutdown
pub mod Ending
pub mod Listing
pub mod Writes
pub mod History
pub mod Answers
pub mod Timed
use elchi_gslb.Prelude.{
  ℕ, ◌≡◌, ◌≢◌, Bool, true, false, not, List, [], ◌∷◌, ◌++◌, ◌==◌, ◌⊎◌, list_eq, nat_eq,
  if◌then◌else◌,
}
use elchi_gslb.Text.{Text, text}
use elchi_gslb.Record.{DeleteRecord}
use elchi_gslb.Cache.{RecordCache}
use elchi_gslb.Client.{Net, fetch_snapshot}
use elchi_gslb.Plugin.{Config, Elchi, Metrics}
use elchi_gslb.Serve.{Dns, Query, serve_dns_between}
use elchi_gslb.Sync.{perform_sync_between, fresh_elchi, after_initial_fetch}
use elchi_gslb.Webhook.{
  Request, NotifyRequest, decoded, Endpoint, handle, apply_updates, apply_deletes, count_webhook,
}

-- InitClient waits for its first snapshot; then backgroundSync waits at its select, or its performSync,
-- which saw the plugin so and began then, waits for the controller; it has returned.
pub data Background : Type 0 where
  fetching waiting ended : Background
  asking : Elchi → ℕ → Background

-- The webhook server is not enabled, accepts requests, or is shut down.
pub data Server : Type 0 where
  absent listening closed : Server

-- A request that net/http has taken, a notification whose records are merged and whose deletions are
-- not, and a query after its first lookup, with the cache that it met.
pub data Task : Type 0 where
  handling : Endpoint → Request → Task
  deleting : List DeleteRecord → Task
  querying : Query → RecordCache → Task

-- `cancelled` is shutdownCtx; `ticked` says that the ticker's channel, which holds one tick, is full.
pub record Process : Type 0 where
  pub elchi : Elchi
  pub background : Background
  pub server : Server
  pub cancelled : Bool
  pub ticked : Bool
  pub in_flight : List Task

-- InitClient at its first call of the controller, which the webhook server is started before.
abbrev pub begin : Config → Metrics → ℕ → Process
begin config metrics gauge = record {
  elchi = fresh_elchi config metrics gauge;
  background = fetching;
  server = if config.webhook_enable then listening else absent;
  cancelled = false;
  ticked = false;
  in_flight = [];
}

-- WebhookServer.Stop, which lets requests in flight finish.
abbrev pub stop : Server → Server
stop absent = absent
stop listening = closed
stop closed = closed

-- Shutdown
unfoldable pub shutdown : Process → Process
shutdown p = record p { cancelled = true; server = stop p.server }

-- A request that handleNotify takes to its effects.
pub record IsAccepted (e : Elchi) (r : Request) (req : NotifyRequest) : Type 0 where
  pub authorized : r.secret ≡ e.secret
  pub posted : r.method ≡ text "POST"
  pub body : r.notify ≡ decoded req

-- The ticker lives as long as the loop of backgroundSync.
abbrev pub has_ticker : Background → Bool
has_ticker fetching = false
has_ticker waiting = true
has_ticker (asking e start) = true
has_ticker ended = false

-- One critical section of one goroutine, or an event of the clock. CoreDNS sends queries once
-- InitClient has returned, and calls Shutdown after that.
pub data Step (dns : Dns) (p : Process) : Process → Type 0 where
  loads :
      (net : Net) (now : ℕ)
      → p.background ≡ fetching
      → Step dns p (record p {
        background = waiting;
        elchi = after_initial_fetch (fetch_snapshot p.elchi.client net) now p.elchi;
      })
  ticks : has_ticker p.background ≡ true → Step dns p (record p { ticked = true })
  asks :
      (start : ℕ)
      → p.background ≡ waiting
      → p.ticked ≡ true
      → Step dns p (record p { background = asking p.elchi start; ticked = false })
  answered :
      (net : Net) (before : Elchi) (start now : ℕ)
      → p.background ≡ asking before start
      → Step dns p (record p {
        background = waiting;
        elchi = perform_sync_between net start now before p.elchi;
      })
  returns :
      p.background ≡ waiting
      → p.cancelled ≡ true
      → Step dns p (record p { background = ended; ticked = false })
  arrives :
      (endpoint : Endpoint) (r : Request)
      → p.server ≡ listening
      → Step dns p (record p { in_flight = handling endpoint r ∷ p.in_flight })
  merges :
      (before after : List Task) (r : Request) (req : NotifyRequest) (now : ℕ)
      → p.in_flight ≡ before ++ (handling Endpoint.notify r ∷ after)
      → IsAccepted p.elchi r req
      → Step dns p (record p {
        elchi = (apply_updates now p.elchi req.records).0;
        in_flight = deleting req.deletes ∷ (before ++ after);
      })
  deletes :
      (before after : List Task) (dels : List DeleteRecord) (now : ℕ)
      → p.in_flight ≡ before ++ (deleting dels ∷ after)
      → Step dns p (record p {
        elchi = count_webhook (text "notify") (text "success") (apply_deletes now p.elchi dels).0;
        in_flight = before ++ after;
      })
  handles :
      (before after : List Task) (endpoint : Endpoint) (r : Request) (now : ℕ)
      → p.in_flight ≡ before ++ (handling endpoint r ∷ after)
      → (endpoint ≢ Endpoint.notify) ⊎ ((req : NotifyRequest) → ¬ IsAccepted p.elchi r req)
      → Step dns p
          (record p { elchi = (handle endpoint now p.elchi r).0; in_flight = before ++ after })
  looks_up :
      (q : Query)
      → p.background ≢ fetching
      → Step dns p (record p { in_flight = querying q p.elchi.cache ∷ p.in_flight })
  serves :
      (before after : List Task) (q : Query) (first : RecordCache)
      → p.in_flight ≡ before ++ (querying q first ∷ after)
      → Step dns p (record p {
        elchi = (serve_dns_between dns p.elchi.cache (record p.elchi { cache = first }) q).0;
        in_flight = before ++ after;
      })
  shuts_down : p.background ≢ fetching → Step dns p (shutdown p)

-- The states that can follow.
pub data Reach (dns : Dns) (p₀ : Process) : Process → Type 0 where
  here : Reach dns p₀ p₀
  next : {p p' : Process} → Reach dns p₀ p → Step dns p p' → Reach dns p₀ p'
