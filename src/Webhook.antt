-- ===== src/Webhook.antt =====
-- The HTTP handlers of WebhookServer (webhook.go).
-- A request is what net/http hands to a handler, and the JSON decoder's result for its body; the
-- response is the status code and the value that is encoded.
mod Http
pub mod Degraded
pub mod Auth
pub mod Notify
pub mod Retry
pub mod Failover
pub mod Records
pub mod Torn
use elchi_gslb.Prelude.{
  ℕ, ◌+◌, ◌-◌, ◌*◌, Bool, true, false, not, ◌&&◌, List, [], ◌∷◌, ◌++◌, Option, none, some, ◌==◌,
  nat_eq, list_eq, list_eqb, ltb, is_empty, length, if◌then◌else◌,
}
use elchi_gslb.Text.{Text, text, to_lower, to_upper, lower_char, upper_char, contains, trim_prefix}
use elchi_gslb.Record.{DnsRecord, DeleteRecord}
use elchi_gslb.Cache.{RecordCache, update, delete, rr_count, get_version_hash, get_all_records}
use elchi_gslb.Plugin.{Config, Elchi, Metrics, SyncStatus, failure, inc}
unfoldable pub use Http.*

-- A handler as one step of the plugin's state.
abbrev pub Handler : Type 0
Handler = ℕ → Elchi → Request → Elchi × Response

-- authMiddleware. ConstantTimeCompare returns 1 exactly for equal texts.
unfoldable pub auth_middleware : Handler → Handler
unfolding list_eqb trim_prefix inc
auth_middleware next now e r =
    if not (r.secret == e.secret)
    then (
      count_webhook (trim_prefix r.path (text "/")) (text "unauthorized") e,
      http_error (text "Unauthorized") status_unauthorized,
    )
    else next now e r

-- The two steps of handleNotify: the cache behind it, and the response where it ends there.
unfoldable pub apply_updates : ℕ → Elchi → List DnsRecord → Elchi × Option Response
unfolding update inc
apply_updates now e records =
    if is_empty records
    then (e, none)
    else (let (cache, failed) = update e.cache records e.ttl now in
        elim failed [
          | none ↦ (record e { cache = cache }, none)
          | some m ↦ (
            count_webhook (text "notify") (text "error") (record e { cache = cache }),
            some (http_error (text "Failed to update records") status_internal_server_error),
          )
        ])

unfoldable pub apply_deletes : ℕ → Elchi → List DeleteRecord → Elchi × Option Response
unfolding delete inc
apply_deletes now e deletes =
    if is_empty deletes
    then (e, none)
    else (let (cache, failed) = delete e.cache deletes now in
        elim failed [
          | none ↦ (record e { cache = cache }, none)
          | some m ↦ (
            count_webhook (text "notify") (text "error") (record e { cache = cache }),
            some (http_error (text "Failed to delete records") status_internal_server_error),
          )
        ])

abbrev pub and_then : Elchi × Option Response → (Elchi → Elchi × Response) → Elchi × Response
and_then (e, some resp) k = (e, resp)
and_then (e, none) k = k e

unfoldable pub apply_notify : ℕ → Elchi → NotifyRequest → Elchi × Response
apply_notify now e req = and_then (apply_updates now e req.records) λ e'.
    and_then (apply_deletes now e' req.deletes) λ e''. (
      count_webhook (text "notify") (text "success") e'',
      write_json status_ok (
          notified (record {
            status = text "ok";
            updated = length req.records;
            deleted = length req.deletes;
          })),
    )

-- handleNotify, behind the test of the method.
unfoldable pub run_notify : ℕ → Elchi → Decoded → Elchi × Response
unfolding apply_notify apply_updates apply_deletes inc
run_notify now e (undecodable m) = (
  count_webhook (text "notify") (text "error") e,
  http_error (text "Invalid request body: " ++ m) status_bad_request,
)
run_notify now e (decoded req) = apply_notify now e req

unfoldable pub handle_notify : Handler
unfolding list_eqb run_notify
handle_notify now e r =
    if not (r.method == text "POST")
    then (e, http_error (text "Method not allowed") status_method_not_allowed)
    else run_notify now e r.notify

-- Whether handleHealth reports the plugin as degraded.
unfoldable pub is_degraded : ℕ → Elchi → Bool
unfolding list_eqb
is_degraded now e =
    e.sync_status.last_sync_status == failure
    && ltb (2 * e.sync_interval) (now - e.sync_status.last_sync_time)

abbrev health_response : Elchi → Text → Text → HealthResponse
health_response e status message = record {
  status = status;
  zone = e.zone;
  records_count = rr_count e.cache;
  version_hash = get_version_hash e.cache;
  last_sync = e.sync_status.last_sync_time;
  last_sync_status = e.sync_status.last_sync_status;
  error = message;
}

unfoldable pub handle_health : Handler
unfolding list_eqb is_degraded rr_count inc
handle_health now e r =
    if not (r.method == text "GET")
    then (e, http_error (text "Method not allowed") status_method_not_allowed)
    else if is_degraded now e
    then (
      count_webhook (text "health") (text "success") e,
      write_json status_service_unavailable
          (Payload.health (health_response e (text "degraded") e.sync_status.last_error)),
    )
    else (
      count_webhook (text "health") (text "success") e,
      write_json status_ok (Payload.health (health_response e (text "healthy") [])),
    )

-- Whether a record passes the two filters of handleRecords.
unfoldable pub passes : Text → Text → DnsRecord → Bool
unfolding list_eqb contains lower_char
passes name_filter type_filter record' =
    not (not (name_filter == []) && not (contains (to_lower record'.name) name_filter))
    && not (not (type_filter == []) && not (record'.type == type_filter))

unfoldable pub filter_records : Text → Text → List DnsRecord → List DnsRecord
unfolding passes
filter_records name_filter type_filter [] = []
filter_records name_filter type_filter (r ∷ rs) =
    let rest = filter_records name_filter type_filter rs in
    if passes name_filter type_filter r then r ∷ rest else rest

-- handleRecords, where `first` is the cache that GetAllRecords reads: the mutex is released before
-- GetVersionHash takes it again.
unfoldable pub handle_records_between : RecordCache → Handler
unfolding list_eqb filter_records get_all_records lower_char upper_char inc
handle_records_between first now e r =
    if not (r.method == text "GET")
    then (e, http_error (text "Method not allowed") status_method_not_allowed)
    else (let filtered_records =
          filter_records (to_lower r.name) (to_upper r.type) (get_all_records first) in
        (
          count_webhook (text "records") (text "success") e,
          write_json status_ok (
              listing (record {
                zone = e.zone;
                version_hash = get_version_hash e.cache;
                count = length filtered_records;
                records = filtered_records;
              })),
        ))

-- handleRecords, where nothing is written meanwhile.
unfoldable pub handle_records : Handler
unfolding handle_records_between
handle_records now e r = handle_records_between e.cache now e r

-- The endpoints that NewWebhookServer registers.
pub data Endpoint : Type 0 where
  notify health records : Endpoint

unfoldable pub handle : Endpoint → Handler
unfolding auth_middleware handle_notify handle_health handle_records
handle Endpoint.notify = auth_middleware handle_notify
handle Endpoint.health = handle_health
handle Endpoint.records = auth_middleware handle_records
