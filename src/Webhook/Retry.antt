-- ===== src/Webhook/Retry.antt =====
-- A notification that the controller sends again (webhook.go).
use elchi_gslb.Prelude.{
  ℕ, ◌≡◌, refl, ap, sym, ◌∙◌, Bool, true, false, List, [], any, list_eq, nat_eq, if◌then◌else◌,
}
use elchi_gslb.Text.{Text, text}
use elchi_gslb.Name.{normalize_domain}
use elchi_gslb.Record.{DnsRecord, Rr}
use elchi_gslb.Cache.{get, update}
use elchi_gslb.Cache.Order.{overridden_idem}
use elchi_gslb.Cache.Spec.{overridden, names}
use elchi_gslb.Cache.View.{update-zone, delete-zone}
use elchi_gslb.Plugin.{Elchi}
use elchi_gslb.Webhook.{NotifyRequest, decoded, Request, Endpoint, handle}
use elchi_gslb.Webhook.Notify.{get-notify, handle-cache, handle-config}

-- No request changes the zone of the cache.
handle-zone :
    (endpoint : Endpoint) (now : ℕ) (e : Elchi) (r : Request)
    → (handle endpoint now e r).0.cache.zone ≡ e.cache.zone
handle-zone endpoint now e r =
    handle-cache (λ c. c.zone ≡ e.cache.zone) now e r refl
      (λ req.
        delete-zone (update e.cache req.records e.ttl now).0 req.deletes now
        ∙ update-zone e.cache req.records e.ttl now)
      endpoint

twice :
    (deleted : Bool) (zone : Text) (ttl : ℕ) (d : Text) (q : ℕ) (rs : List DnsRecord)
    (old : List Rr)
    → (if deleted
        then []
        else overridden zone ttl d q rs (if deleted then [] else overridden zone ttl d q rs old))
      ≡ (if deleted then [] else overridden zone ttl d q rs old)
twice true zone ttl d q rs old = refl
twice false zone ttl d q rs old = overridden_idem zone ttl d q rs old

-- A notification, POST, well-formed and with the plugin's secret, that arrives a second time with
-- nothing written between, at any time, is answered like the first, and changes no answer any more: what
-- a query gets after the second it got after the first.
pub get-notify_twice :
    (now later : ℕ) (e : Elchi) (r : Request) (req : NotifyRequest) (qname : Text) (q : ℕ)
    → r.secret ≡ e.secret
    → r.method ≡ text "POST"
    → r.notify ≡ decoded req
    → (let e' = (handle Endpoint.notify now e r).0 in
        ((handle Endpoint.notify later e' r).1 ≡ (handle Endpoint.notify now e r).1)
        × (get (handle Endpoint.notify later e' r).0.cache qname q ≡ get e'.cache qname q))
get-notify_twice now later e r req qname q same post body =
    let e' : Elchi = (handle Endpoint.notify now e r).0 in
    let kept : e'.config ≡ e.config = handle-config Endpoint.notify now e r in
    let (answer, first, _, _) = get-notify now e r req qname q same post body in
    let (answer', second, _, _) =
      get-notify later e' r req qname q (same ∙ ap (λ c. c.secret) (sym kept)) post body in
    (
      answer' ∙ sym answer,
      second
          ∙ rw (handle-zone Endpoint.notify now e r, ap (λ c. c.ttl) kept, first)
              (twice (any (names (normalize_domain qname) q) req.deletes) e.cache.zone e.ttl
                (normalize_domain qname) q req.records (get e.cache qname q)),
    )
