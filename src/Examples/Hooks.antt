-- ===== src/Examples/Hooks.antt =====
-- The handlers of webhook.go at concrete inputs.
use elchi_gslb.Prelude.{
  ◌≡◌, ◌≢◌, refl, true, [], ◌∷◌, ◌⊎◌, any, list_eq, nat_eq, if◌then◌else◌, ◌↔◌,
}
use elchi_gslb.Text.{text}
use elchi_gslb.Examples.{asia_back, started, dns, ask, notification, notify_request}
use elchi_gslb.Name.{normalize_domain}
use elchi_gslb.Record.{type_a, type_cname}
use elchi_gslb.Cache.{get}
use elchi_gslb.Cache.Spec.{overridden, names}
use elchi_gslb.Webhook.{
  Request, status_ok, status_bad_request, status_unauthorized, status_method_not_allowed, Endpoint,
  handle, http_error,
}
use elchi_gslb.Ip.{parse_ip, to_4}
use elchi_gslb.Name.{outside_zone}
use elchi_gslb.Record.Build.{v4_of, build_dns_records}
use elchi_gslb.Cache.Nested.{append_at}
use elchi_gslb.Cache.{load_record, load_records, new_record_cache, replace_from_snapshot}
use elchi_gslb.Sync.{init_client, fresh_elchi}
use elchi_gslb.Client.{fetch_snapshot}
use elchi_gslb.Serve.{serve_dns}
use elchi_gslb.Webhook.Auth.{is_protected, handle-unauthorized_iff}
use elchi_gslb.Webhook.Notify.{accepted, get-notify, notify_codes}
use elchi_gslb.Webhook.Failover.{serve_dns-notify}
use elchi_gslb.Webhook.Retry.{get-notify_twice}

abbrev intruder : Request
intruder = record notify_request { secret = text "guess" }

handle-unauthorized_iff_example :
    (((handle Endpoint.notify 2000 started intruder).1.status_code ≡ status_unauthorized)
      ↔ ((is_protected Endpoint.notify ≡ true) × (intruder.secret ≢ started.secret)))
    × ((is_protected Endpoint.notify ≡ true)
        → intruder.secret ≢ started.secret
        → ((handle Endpoint.notify 2000 started intruder).1
            ≡ http_error (text "Unauthorized") status_unauthorized)
          × ((handle Endpoint.notify 2000 started intruder).0.cache ≡ started.cache)
          × ((handle Endpoint.notify 2000 started intruder).0.sync_status ≡ started.sync_status))
handle-unauthorized_iff_example = handle-unauthorized_iff Endpoint.notify 2000 started intruder

same_secret : notify_request.secret ≡ started.secret
unfolding init_client fresh_elchi fetch_snapshot
same_secret = refl

get-notify_example :
    ((handle Endpoint.notify 2000 started notify_request).1 ≡ accepted notification)
    × (get
          (handle Endpoint.notify 2000 started notify_request).0.cache
          (text "asia.gslb.elchi")
          type_a
        ≡ (if any (names (normalize_domain (text "asia.gslb.elchi")) type_a) notification.deletes
            then []
            else overridden started.cache.zone started.ttl
                (normalize_domain (text "asia.gslb.elchi"))
                type_a
                (asia_back ∷ [])
                (get started.cache (text "asia.gslb.elchi") type_a)))
    × ((handle Endpoint.notify 2000 started notify_request).0.cache.version_hash
        ≡ started.cache.version_hash)
    × ((handle Endpoint.notify 2000 started notify_request).0.sync_status ≡ started.sync_status)
get-notify_example =
    get-notify 2000 started notify_request notification (text "asia.gslb.elchi") type_a same_secret
      refl refl

notify_codes_example :
    (let (e', resp) = handle Endpoint.notify 2000 started intruder in
      (resp.status_code ≡ status_ok)
      ⊎ (((resp.status_code ≡ status_bad_request)
            ⊎ (resp.status_code ≡ status_unauthorized)
            ⊎ (resp.status_code ≡ status_method_not_allowed))
          × (e'.cache ≡ started.cache)))
notify_codes_example = notify_codes 2000 started intruder

started_cname : get started.cache (text "asia.gslb.elchi.") type_cname ≢ []
unfolding init_client fresh_elchi fetch_snapshot get replace_from_snapshot load_records load_record
    new_record_cache build_dns_records v4_of parse_ip to_4 normalize_domain outside_zone append_at
started_cname e = cc

serve_dns-notify_example :
    (serve_dns dns
      (handle Endpoint.notify 2000 started notify_request).0
      (ask "asia.gslb.elchi." 1)).1
    ≡ (serve_dns dns started (ask "asia.gslb.elchi." 1)).1
serve_dns-notify_example =
    serve_dns-notify dns 2000 started notify_request notification (ask "asia.gslb.elchi." 1)
      same_secret refl refl (λ e. cc, tt) started_cname

get-notify_twice_example :
    (let e' = (handle Endpoint.notify 2000 started notify_request).0 in
      ((handle Endpoint.notify 3000 e' notify_request).1
        ≡ (handle Endpoint.notify 2000 started notify_request).1)
      × (get (handle Endpoint.notify 3000 e' notify_request).0.cache (text "asia.gslb.elchi") type_a
          ≡ get e'.cache (text "asia.gslb.elchi") type_a))
get-notify_twice_example =
    get-notify_twice 2000 3000 started notify_request notification (text "asia.gslb.elchi") type_a
      same_secret refl refl
