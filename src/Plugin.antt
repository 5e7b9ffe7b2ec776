-- ===== src/Plugin.antt =====
-- The plugin's state: Elchi (elchi.go), SyncStatus (webhook.go) and the counters (metrics.go).
use elchi_gslb.Prelude.{
  ℕ, ◌+◌, Bool, false, not, ◌&&◌, List, [], ◌∷◌, Option, none, some, ◌==◌, nat_eq, list_eq,
  list_eqb, if◌then◌else◌,
}
use elchi_gslb.Text.{Text, text}
use elchi_gslb.Cache.{RecordCache, get_version_hash}
use elchi_gslb.Client.{ElchiClient}

-- A counter with two labels.
abbrev pub CounterVec : Type 0
CounterVec = Text → Text → ℕ

-- WithLabelValues(a, b).Inc()
unfoldable pub inc : Text → Text → CounterVec → CounterVec
unfolding list_eqb
inc a b counter x y = if a == x && b == y then counter x y + 1 else counter x y

-- A histogram with two labels: what was observed, the last first.
abbrev pub HistogramVec : Type 0
HistogramVec = Text → Text → List ℕ

unfoldable pub observe : Text → Text → ℕ → HistogramVec → HistogramVec
unfolding list_eqb
observe a b value histogram x y = if a == x && b == y then value ∷ histogram x y else histogram x y

-- The gauge `cacheSize` is the field `cache_size` of the cache.
pub record Metrics : Type 0 where
  pub request_count : CounterVec
  pub cache_hits : CounterVec
  pub cache_misses : CounterVec
  pub sync_duration : HistogramVec
  pub sync_errors : CounterVec
  pub webhook_requests : CounterVec

pub record SyncStatus : Type 0 where
  pub last_sync_time : ℕ
  pub last_sync_status : Text
  pub last_error : Text

abbrev pub success : Text
success = text "success"

abbrev pub failure : Text
failure = text "failed"

-- SyncStatus.Update; the error is its message, or nil.
unfoldable pub update_status : Text → Option Text → ℕ → SyncStatus → SyncStatus
update_status status error now s = record {
  last_sync_time = now;
  last_sync_status = status;
  last_error = elim error [ none ↦ [] | some m ↦ m ];
}

-- The configuration; durations are in nanoseconds.
pub record Config : Type 0 where
  pub endpoint : Text
  pub zone : Text
  pub secret : Text
  pub ttl : ℕ
  pub sync_interval : ℕ
  pub timeout : ℕ
  pub webhook_addr : Text
  pub webhook_enable : Bool
  pub tls_skip_verify : Bool
  pub node_ip : Text
  pub regions : List Text

-- The plugin once its client is initialized.
pub record Elchi : Type 0 where
  pub config : Config
  pub open config use *
  pub client : ElchiClient
  pub cache : RecordCache
  pub sync_status : SyncStatus
  pub metrics : Metrics

-- Ready, on a cache that may not be there yet.
unfoldable pub ready : Option RecordCache → Bool
unfolding list_eqb
ready none = false
ready (some cache) = not (get_version_hash cache == [])
