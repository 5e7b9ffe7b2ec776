-- ===== src/Webhook/Notify.antt =====
-- handleNotify (webhook.go): updates first, then deletions, and what is answered.
use elchi_gslb.Prelude.{
  ℕ, ◌≡◌, refl, ap, sym, subst, ◌∙◌, List, [], ◌∷◌, ◌==◌, none, ◌⊎◌, any, list_eq, nat_eq,
  list_eqb_iff, if◌then◌else◌, arith, Bool-cases, inl, inr, length,
}
use elchi_gslb.Text.{Text, text}
use elchi_gslb.Name.{normalize_domain}
use elchi_gslb.Record.{DnsRecord, DeleteRecord, Rr}
use elchi_gslb.Cache.{RecordCache, get, update, delete}
use elchi_gslb.Cache.Spec.{overridden, names}
use elchi_gslb.Cache.Merge.{get-update, get-delete}
use elchi_gslb.Plugin.{Elchi}
use elchi_gslb.Webhook.{
  NotifyRequest, Decoded, decoded, undecodable, Request, notified, Response, status_ok,
  status_bad_request, status_unauthorized, status_method_not_allowed, auth_middleware, apply_notify,
  run_notify, handle_notify, Endpoint, handle, count_webhook, apply_updates, apply_deletes,
  write_json,
}

abbrev pub accepted : NotifyRequest → Response
accepted req = write_json status_ok (
    notified
      (record { status = text "ok"; updated = length req.records; deleted = length req.deletes }))

-- The cache behind a notification.
abbrev pub notified_cache : ℕ → Elchi → NotifyRequest → RecordCache
notified_cache now e req = (delete (update e.cache req.records e.ttl now).0 req.deletes now).0

pub updates_lem :
    (now : ℕ) (e : Elchi) (records : List DnsRecord)
    → apply_updates now e records
      ≡ (record e { cache = (update e.cache records e.ttl now).0 }, none)
unfolding apply_updates
updates_lem now e [] = refl
updates_lem now e (r ∷ rs) = refl

pub deletes_lem :
    (now : ℕ) (e : Elchi) (deletes : List DeleteRecord)
    → apply_deletes now e deletes ≡ (record e { cache = (delete e.cache deletes now).0 }, none)
unfolding apply_deletes
deletes_lem now e [] = refl
deletes_lem now e (d ∷ ds) = refl

apply_notify_lem :
    (now : ℕ) (e : Elchi) (req : NotifyRequest)
    → apply_notify now e req ≡ (
      count_webhook
          (text "notify")
          (text "success")
          (record e { cache = notified_cache now e req }),
      accepted req,
    )
unfolding apply_notify
apply_notify_lem now e req = rw (updates_lem, deletes_lem)

handle_notify_lem :
    (now : ℕ) (e : Elchi) (r : Request) (req : NotifyRequest)
    → r.method ≡ text "POST"
    → r.notify ≡ decoded req
    → handle_notify now e r ≡ apply_notify now e req
unfolding handle_notify
handle_notify_lem now e r req post body = rw (post, body)

authorized_lem :
    (now : ℕ) (e : Elchi) (r : Request)
    → r.secret ≡ e.secret
    → handle Endpoint.notify now e r ≡ handle_notify now e r
unfolding handle
authorized_lem now e r same = ground (arith, list_eqb_iff r.secret e.secret)

-- No request changes the configuration.
pub handle-config :
    (endpoint : Endpoint) (now : ℕ) (e : Elchi) (r : Request)
    → (handle endpoint now e r).0.config ≡ e.config
unfolding handle
handle-config Endpoint.notify now e r = ground arith
handle-config Endpoint.health now e r = ground arith
handle-config Endpoint.records now e r = ground arith

-- A notification with the plugin's secret is answered by 200 and the numbers of its records and
-- deletions. From then on a query gets nothing where a deletion names its normalized name and type;
-- otherwise what the last record that contributes to them contributes; otherwise what it got
-- before. The version hash and the sync status stay.
pub get-notify :
    (now : ℕ) (e : Elchi) (r : Request) (req : NotifyRequest) (qname : Text) (q : ℕ)
    → r.secret ≡ e.secret
    → r.method ≡ text "POST"
    → r.notify ≡ decoded req
    → ((handle Endpoint.notify now e r).1 ≡ accepted req)
      × (get (handle Endpoint.notify now e r).0.cache qname q ≡ (
          if any (names (normalize_domain qname) q) req.deletes
          then []
          else overridden e.cache.zone e.ttl
              (normalize_domain qname)
              q
              req.records
              (get e.cache qname q)))
      × ((handle Endpoint.notify now e r).0.cache.version_hash ≡ e.cache.version_hash)
      × ((handle Endpoint.notify now e r).0.sync_status ≡ e.sync_status)
get-notify now e r req qname q same post body =
    let (update_get, update_hash, _) = get-update e.cache req.records e.ttl now qname q in
    let (delete_get, delete_hash, _) =
      get-delete (update e.cache req.records e.ttl now).0 req.deletes now qname q in
    rw (authorized_lem now e r same, handle_notify_lem now e r req post body, apply_notify_lem)
      (
        refl,
        delete_get
            ∙ ap
                (λ (old : List Rr).
                  if any (names (normalize_domain qname) q) req.deletes then [] else old)
                update_get,
        delete_hash ∙ update_hash,
        refl,
      )

-- A notification is answered by 200, 400, 401 or 405, never by 500; where it is not answered by 200
-- the cache is as it was.
pub notify_codes :
    (now : ℕ) (e : Elchi) (r : Request)
    → (let (e', resp) = handle Endpoint.notify now e r in
        (resp.status_code ≡ status_ok)
        ⊎ (((resp.status_code ≡ status_bad_request)
              ⊎ (resp.status_code ≡ status_unauthorized)
              ⊎ (resp.status_code ≡ status_method_not_allowed))
            × (e'.cache ≡ e.cache)))
unfolding handle auth_middleware handle_notify
notify_codes now e r = ground arith

pub reads_only :
    (now : ℕ) (e : Elchi) (r : Request)
    → ((handle Endpoint.health now e r).0.cache ≡ e.cache)
      × ((handle Endpoint.records now e r).0.cache ≡ e.cache)
unfolding handle
reads_only now e r = ground arith

-- What holds of the cache, and of the caches that notifications make of it, holds after any request.
module _ (P : RecordCache → Type 0) (now : ℕ) (e : Elchi) (r : Request) (before : P e.cache)
    (after : (req : NotifyRequest) → P (notified_cache now e req)) where
  body_cache : (body : Decoded) → P (run_notify now e body).0.cache
  unfolding run_notify
  body_cache (undecodable m) = before
  body_cache (decoded req) = rw apply_notify_lem (after req)

  notify_cache : P (handle_notify now e r).0.cache
  unfolding handle_notify
  notify_cache = elim (Bool-cases (r.method == text "POST")) [
    | inl post ↦ rw post (body_cache r.notify)
    | inr other ↦ rw other before
  ]

  pub handle-cache : (endpoint : Endpoint) → P (handle endpoint now e r).0.cache
  unfolding handle
  handle-cache Endpoint.notify = elim (Bool-cases (r.secret == e.secret)) [
    | inl same ↦ rw (same, auth_middleware) notify_cache
    | inr other ↦ rw (other, auth_middleware) before
  ]
  handle-cache Endpoint.health = subst P (sym (reads_only now e r).0) before
  handle-cache Endpoint.records = subst P (sym (reads_only now e r).1) before
