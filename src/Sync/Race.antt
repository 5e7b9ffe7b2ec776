-- ===== src/Sync/Race.antt =====
-- performSync (elchi.go) asks the controller without holding the cache's mutex: what is written
-- meanwhile.
use elchi_gslb.Prelude.{
  ℕ, ◌≡◌, ◌∙◌, refl, sym, ap, [], list_eq, nat_eq, list_eqb_iff, arith, some, inl, inr,
}
use elchi_gslb.Text.{Text}
use elchi_gslb.Record.{DnsSnapshot}
use elchi_gslb.Name.{normalize_domain}
use elchi_gslb.Client.{Net}
use elchi_gslb.Plugin.{Config, Elchi}
use elchi_gslb.Cache.{RecordCache, get, update, delete, replace_from_snapshot}
use elchi_gslb.Cache.Spec.{contributions}
use elchi_gslb.Cache.Replace.{get-replace_from_snapshot}
use elchi_gslb.Sync.{perform_sync, perform_sync_between}
use elchi_gslb.Sync.Fresh.{Given, get-perform_sync}
use elchi_gslb.Webhook.{Request, Endpoint, handle, NotifyRequest}
use elchi_gslb.Webhook.Notify.{handle-cache, handle-config, notified_cache}

pub between-Given :
    (net : Net) (start now : ℕ) (e later : Elchi) (s : DnsSnapshot)
    → Given net e s
    → (perform_sync_between net start now e later).cache
      ≡ (replace_from_snapshot later.cache (some s) later.ttl now).0
unfolding perform_sync_between
between-Given net start now e later s (inl (empty, given)) =
    ground (arith, list_eqb_iff e.cache.version_hash [])
between-Given net start now e later s (inr (some_hash, (changes, given, changed, same))) =
    rw same (ground (arith, list_eqb_iff e.cache.version_hash []))

notified_zone :
    (now : ℕ) (e : Elchi) (req : NotifyRequest) → (notified_cache now e req).zone ≡ e.cache.zone
unfolding update delete
notified_zone now e req = ground arith

-- A notification that is handled while a sync waits for the controller is lost where the controller
-- then gives a snapshot: every query gets what it would get if the notification had never come.
pub perform_sync_between-eq-perform_sync :
    (net : Net) (start arrived now : ℕ) (e : Elchi) (r : Request) (s : DnsSnapshot) (qname : Text)
    (q : ℕ)
    → Given net e s
    → get
        (perform_sync_between net start now e (handle Endpoint.notify arrived e r).0).cache
        qname
        q
      ≡ get (perform_sync net start now e).cache qname q
perform_sync_between-eq-perform_sync net start arrived now e r s qname q given =
    let later : Elchi = (handle Endpoint.notify arrived e r).0 in
    let zoned : later.cache.zone ≡ e.cache.zone =
      handle-cache (λ c. c.zone ≡ e.cache.zone) arrived e r refl (notified_zone arrived e)
        Endpoint.notify in
    let configured : later.config ≡ e.config = handle-config Endpoint.notify arrived e r in
    ap (λ (c : RecordCache). get c qname q) (between-Given net start now e later s given)
    ∙ (get-replace_from_snapshot later.cache s later.ttl now qname q).0
    ∙ ap (λ (zone : Text). contributions zone later.ttl (normalize_domain qname) q s.records) zoned
    ∙ ap (λ (c : Config). contributions e.cache.zone c.ttl (normalize_domain qname) q s.records)
        configured
    ∙ sym (get-perform_sync net start now e s qname q given).0
