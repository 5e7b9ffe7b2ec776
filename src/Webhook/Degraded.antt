-- ===== src/Webhook/Degraded.antt =====
-- When /health (webhook.go) reports a plugin as degraded.
use elchi_gslb.Prelude.{
  ℕ, ◌+◌, ◌≤◌, ◌<◌, ◌≡◌, true, false, ◌==◌, list_eq, nat_eq, list_eqb_iff, arith, refl,
}
use elchi_gslb.Text.{text}
use elchi_gslb.Plugin.{Config, Elchi}
use elchi_gslb.Webhook.{Request, Endpoint, handle, is_degraded, status_ok}

-- The last sync, whether it failed or not, is no longer ago than an interval and a timeout.
abbrev pub IsRecent : Config → ℕ → Elchi → Type 0
IsRecent config now e = now ≤ e.sync_status.last_sync_time + config.sync_interval + config.timeout

pub handle-sync_status :
    (endpoint : Endpoint) (now : ℕ) (e : Elchi) (r : Request)
    → (handle endpoint now e r).0.sync_status ≡ e.sync_status
unfolding handle
handle-sync_status Endpoint.notify now e r = ground arith
handle-sync_status Endpoint.health now e r = ground arith
handle-sync_status Endpoint.records now e r = ground arith

pub not_degraded :
    (now : ℕ) (e : Elchi) (r : Request)
    → r.method ≡ text "GET"
    → is_degraded now e ≡ false
    → (handle Endpoint.health now e r).1.status_code ≡ status_ok
unfolding handle
not_degraded now e r get h =
    let method : (r.method == text "GET") ≡ true = (list_eqb_iff r.method (text "GET")).1 get in
    rw (method, h) refl

pub recent_not_degraded :
    (now : ℕ) (e : Elchi)
    → e.timeout < e.sync_interval
    → IsRecent e.config now e
    → is_degraded now e ≡ false
unfolding is_degraded
recent_not_degraded now e short recent = ground arith
