-- ===== src/Webhook/Http.antt =====
-- The requests and responses of WebhookServer (webhook.go), as its handlers read and write them.
use elchi_gslb.Prelude.{ℕ, List, nat_eq, list_eq}
use elchi_gslb.Text.{Text}
use elchi_gslb.Record.{DnsRecord, DeleteRecord}
use elchi_gslb.Plugin.{Elchi, inc}

pub record NotifyRequest : Type 0 where
  pub records : List DnsRecord
  pub deletes : List DeleteRecord

-- `notify` is the decoded body of a notification: the error's message where it cannot be decoded.
pub data Decoded : Type 0 where
  decoded : NotifyRequest → Decoded
  undecodable : Text → Decoded

pub record Request : Type 0 where
  pub method : Text
  pub path : Text
  pub secret : Text
  pub notify : Decoded
  pub name : Text
  pub type : Text

pub record NotifyResponse : Type 0 where
  pub status : Text
  pub updated : ℕ
  pub deleted : ℕ

pub record HealthResponse : Type 0 where
  pub status : Text
  pub zone : Text
  pub records_count : ℕ
  pub version_hash : Text
  pub last_sync : ℕ
  pub last_sync_status : Text
  pub error : Text

pub record RecordsResponse : Type 0 where
  pub zone : Text
  pub version_hash : Text
  pub count : ℕ
  pub records : List DnsRecord

-- The body of a response: http.Error's text, or one of the values that writeJSON encodes. Its code
-- is what the encoder is given; the encoder does not fail on these types.
pub data Payload : Type 0 where
  error : Text → Payload
  notified : NotifyResponse → Payload
  health : HealthResponse → Payload
  listing : RecordsResponse → Payload

pub record Response : Type 0 where
  pub status_code : ℕ
  pub payload : Payload

abbrev pub status_ok : ℕ
status_ok = 200

abbrev pub status_bad_request : ℕ
status_bad_request = 400

abbrev pub status_unauthorized : ℕ
status_unauthorized = 401

abbrev pub status_method_not_allowed : ℕ
status_method_not_allowed = 405

abbrev pub status_internal_server_error : ℕ
status_internal_server_error = 500

abbrev pub status_service_unavailable : ℕ
status_service_unavailable = 503

abbrev pub http_error : Text → ℕ → Response
http_error m code = record { status_code = code; payload = Payload.error m }

abbrev pub write_json : ℕ → Payload → Response
write_json code v = record { status_code = code; payload = v }

abbrev pub count_webhook : Text → Text → Elchi → Elchi
count_webhook endpoint status e = record e {
  metrics = record e.metrics { webhook_requests = inc endpoint status e.metrics.webhook_requests };
}
