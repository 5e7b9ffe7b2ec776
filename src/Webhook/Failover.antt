-- ===== src/Webhook/Failover.antt =====
-- Notifications (webhook.go) and a name in failover.
use elchi_gslb.Prelude.{
  ℕ, ◌≡◌, ◌≢◌, refl, ◌∙◌, false, List, [], ◌∷◌, All, any, list_eq, nat_eq, is_empty_iff, arith,
}
use elchi_gslb.Text.{Text, text}
use elchi_gslb.Name.{normalize_domain}
use elchi_gslb.Record.{DnsRecord, DeleteRecord, Rr, type_cname}
use elchi_gslb.Cache.{get}
use elchi_gslb.Cache.Spec.{contribution, overridden, names}
use elchi_gslb.Plugin.{Elchi}
use elchi_gslb.Webhook.Notify.{get-notify, handle-config}
use elchi_gslb.Serve.{Dns, Query, serve_dns}
use elchi_gslb.Serve.Answers.{serve_dns_cases}
use elchi_gslb.Webhook.{NotifyRequest, decoded, Request, Endpoint, handle}

-- A record that lists addresses.
abbrev pub HasAddresses : DnsRecord → Type 0
HasAddresses r = r.ips ≢ []

-- A record with addresses contributes no CNAME.
no_cname_from :
    (zone : Text) (ttl : ℕ) (d : Text) (r : DnsRecord)
    → r.ips ≢ []
    → contribution zone ttl d type_cname r ≡ []
unfolding contribution
no_cname_from zone ttl d r addresses = ground (arith, is_empty_iff r.ips)

overridden_cname :
    (zone : Text) (ttl : ℕ) (d : Text) (rs : List DnsRecord) (old : List Rr)
    → All HasAddresses rs
    → overridden zone ttl d type_cname rs old ≡ old
unfolding overridden
overridden_cname zone ttl d [] old h = refl
overridden_cname zone ttl d (r ∷ rs) old (h, hs) =
    rw (no_cname_from zone ttl d r h) (overridden_cname zone ttl d rs old hs)

-- No deletion names the type CNAME.
not_named : (d : Text) (deletes : List DeleteRecord) → any (names d type_cname) deletes ≡ false
unfolding names
not_named d [] = refl
not_named d (del ∷ deletes) = ground (arith, not_named d deletes)

-- Whatever a notification deletes, and whatever addresses its records bring, a name with a CNAME is
-- answered as before, with the CNAME: the failover lasts until the next snapshot.
pub serve_dns-notify :
    (dns : Dns) (now : ℕ) (e : Elchi) (r : Request) (req : NotifyRequest) (q : Query)
    → r.secret ≡ e.secret
    → r.method ≡ text "POST"
    → r.notify ≡ decoded req
    → All HasAddresses req.records
    → get e.cache q.name type_cname ≢ []
    → (serve_dns dns (handle Endpoint.notify now e r).0 q).1 ≡ (serve_dns dns e q).1
serve_dns-notify dns now e r req q same post body addresses cname =
    let e' : Elchi = (handle Endpoint.notify now e r).0 in
    let kept : get e'.cache q.name type_cname ≡ get e.cache q.name type_cname =
      (get-notify now e r req q.name type_cname same post body).1
      ∙ rw (not_named (normalize_domain q.name) req.deletes) (
          overridden_cname e.cache.zone e.ttl (normalize_domain q.name) req.records
            (get e.cache q.name type_cname) addresses) in
    ground (
      arith,
      kept,
      serve_dns_cases dns e q,
      serve_dns_cases dns e' q,
      handle-config Endpoint.notify now e r,
      is_empty_iff (get e.cache q.name type_cname),
    )
