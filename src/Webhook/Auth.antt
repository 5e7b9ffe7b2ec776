-- ===== src/Webhook/Auth.antt =====
-- authMiddleware (webhook.go): what a request without the secret can do and see.
use elchi_gslb.Prelude.{ℕ, ◌≡◌, ◌≢◌, Bool, true, false, list_eq, nat_eq, list_eqb_iff, arith, ◌↔◌}
use elchi_gslb.Text.{text}
use elchi_gslb.Plugin.{Elchi}
use elchi_gslb.Webhook.{
  Request, status_unauthorized, handle_notify, handle_health, handle_records, Endpoint, handle,
  http_error,
}

-- The endpoints that NewWebhookServer wraps in authMiddleware.
abbrev pub is_protected : Endpoint → Bool
is_protected Endpoint.notify = true
is_protected Endpoint.health = false
is_protected Endpoint.records = true

ne_401 :
    (now : ℕ) (e : Elchi) (r : Request)
    → ((handle_notify now e r).1.status_code ≢ status_unauthorized)
      × ((handle_health now e r).1.status_code ≢ status_unauthorized)
      × ((handle_records now e r).1.status_code ≢ status_unauthorized)
unfolding handle_notify handle_health handle_records
ne_401 now e r = ground arith

-- A response is 401 exactly where the endpoint is /notify or /records and the request has another
-- secret than the plugin. Each such request is told nothing else, and changes neither the cache nor
-- the sync status.
pub handle-unauthorized_iff :
    (endpoint : Endpoint) (now : ℕ) (e : Elchi) (r : Request)
    → (((handle endpoint now e r).1.status_code ≡ status_unauthorized)
        ↔ ((is_protected endpoint ≡ true) × (r.secret ≢ e.secret)))
      × ((is_protected endpoint ≡ true)
          → r.secret ≢ e.secret
          → ((handle endpoint now e r).1 ≡ http_error (text "Unauthorized") status_unauthorized)
            × ((handle endpoint now e r).0.cache ≡ e.cache)
            × ((handle endpoint now e r).0.sync_status ≡ e.sync_status))
unfolding handle
handle-unauthorized_iff Endpoint.notify now e r =
    ground (arith, ne_401 now e r, list_eqb_iff r.secret e.secret)
handle-unauthorized_iff Endpoint.health now e r = ground (arith, ne_401 now e r)
handle-unauthorized_iff Endpoint.records now e r =
    ground (arith, ne_401 now e r, list_eqb_iff r.secret e.secret)
