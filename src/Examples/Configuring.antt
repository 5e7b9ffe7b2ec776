-- ===== src/Examples/Configuring.antt =====
-- parseElchi (setup.go) on a Corefile.
use elchi_gslb.Prelude.{
  ℕ, ◌≡◌, refl, true, false, List, [], ◌∷◌, none, ◌==◌, list_eq, nat_eq, if◌then◌else◌, arith, ltb,
}
use elchi_gslb.Text.{Text, text}
use elchi_gslb.Client.{decimal}
use elchi_gslb.Setup.{
  set_ttl, ttl_zero, ttl_range, refused, accepted, Settings, max_uint32, parse_uint,
  unknown_directive, sync_interval_not_above_timeout,
}
use elchi_gslb.Setup.Loops.{parse_elchi, block}
use elchi_gslb.Setup.Corefile.{endpoint, secret, ttl, sync_interval, node_ip, regions}
use elchi_gslb.Setup.Numbers.{set_ttl-decimal}
use elchi_gslb.Examples.{no_metrics, unreachable, dns, notify_request}
use elchi_gslb.Plugin.{Elchi}
use elchi_gslb.Sync.{init_client, perform_sync_between}
use elchi_gslb.Webhook.{Request, Endpoint, handle, status_ok}
use elchi_gslb.Process.{Process, Background, ticks, asks, answered}
use elchi_gslb.Process.Timed.{Timed, start, waits, acts, initialized, Timed-never_degraded}
use elchi_gslb.Examples.Corefiles.{Lines, lines, total}

abbrev keys : List Text
keys = text "gslb.elchi." ∷ []

abbrev corefile : Lines
corefile = (
  1,
  (
    [],
    (text "endpoint" ∷ text "http://controller:1052" ∷ [])
        ∷ (text "secret" ∷ text "test-secret-key" ∷ [])
        ∷ (text "ttl" ∷ text "60" ∷ [])
        ∷ (text "sync_interval" ∷ text "1m" ∷ [])
        ∷ (text "webhook" ∷ [])
        ∷ (text "node_ip" ∷ text "10.0.0.9" ∷ [])
        ∷ (text "regions" ∷ text "asya" ∷ text "avrupa" ∷ [])
        ∷ [],
  ),
)

abbrev settings : Settings
settings = record {
  config = record {
    endpoint = text "http://controller:1052";
    zone = text "gslb.elchi.";
    secret = text "test-secret-key";
    ttl = 60;
    sync_interval = 60000000000;
    timeout = 4000000000;
    webhook_addr = text ":8053";
    webhook_enable = true;
    tls_skip_verify = false;
    node_ip = text "10.0.0.9";
    regions = text "asya" ∷ text "avrupa" ∷ [];
  };
  fall = none;
}

corefile-accepted : parse_elchi lines keys corefile ≡ accepted settings
unfolding parse_elchi total block
corefile-accepted = refl

-- A minute is not above a timeout of a minute.
slow_refused :
    parse_elchi lines keys (
      1,
      (
        [],
        (text "endpoint" ∷ text "http://c" ∷ [])
            ∷ (text "timeout" ∷ text "1m" ∷ [])
            ∷ (text "sync_interval" ∷ text "1m" ∷ [])
            ∷ (text "secret" ∷ text "test-secret-key" ∷ [])
            ∷ (text "node_ip" ∷ text "10.0.0.9" ∷ [])
            ∷ [],
      ),
    )
    ≡ refused sync_interval_not_above_timeout
unfolding parse_elchi total block
slow_refused = refl

-- An argument too many is read as a directive.
extra_refused :
    parse_elchi lines keys (1, ([], (text "endpoint" ∷ text "http://c" ∷ text "d" ∷ []) ∷ []))
    ≡ refused (unknown_directive (text "d"))
unfolding parse_elchi total block
extra_refused = refl

abbrev above_range : ℕ
above_range = 4294967296

set_ttl-decimal_example : set_ttl settings (parse_uint (decimal above_range)) ≡ (
    if above_range == 0
    then refused ttl_zero
    else if ltb max_uint32 above_range
    then refused ttl_range
    else accepted (record settings { config = record settings.config { ttl = above_range } }))
set_ttl-decimal_example = set_ttl-decimal settings above_range

-- The configured plugin, whose controller cannot be reached at its start, nor a minute later.
abbrev cut_off : Elchi
cut_off = init_client settings.config no_metrics 0 unreachable 1000

-- The lines of that Corefile, and what they set.
abbrev corefile_lines : List (Text × List Text)
corefile_lines =
    (text "endpoint", text "http://controller:1052" ∷ [])
    ∷ (text "secret", text "test-secret-key" ∷ [])
    ∷ (text "ttl", text "60" ∷ [])
    ∷ (text "sync_interval", text "1m" ∷ [])
    ∷ (text "webhook", [])
    ∷ (text "node_ip", text "10.0.0.9" ∷ [])
    ∷ (text "regions", text "asya" ∷ text "avrupa" ∷ [])
    ∷ []

abbrev after_name : Lines
after_name = (0, corefile.1)

abbrev at_end : Lines
at_end = (0, ([], []))

-- A minute later its first sync begins and fails.
abbrev cut_off_process : Process
cut_off_process = initialized settings.config no_metrics 0 unreachable 1000

abbrev cut_off_asking : Process
cut_off_asking = record cut_off_process {
  background = Background.asking cut_off 1000;
  ticked = false;
}

abbrev cut_off_later : Process
cut_off_later = record cut_off_asking {
  background = Background.waiting;
  elchi = perform_sync_between unreachable 1000 60000001000 cut_off cut_off;
}

cut_off_timed : Timed dns settings.config 1000 cut_off_process 60000001000 60000001000 cut_off_later
cut_off_timed = acts (answered unreachable cut_off 1000 60000001000 refl) refl (
    waits 60000001000 (acts (asks 1000 refl refl) tt (acts (ticks refl) tt start)) (omega arith)
      (omega arith))

abbrev health_request : Request
health_request = record notify_request { method = text "GET"; path = text "/health" }

Timed-never_degraded_example :
    (handle Endpoint.health 60000001000 cut_off_later.elchi health_request).1.status_code
    ≡ status_ok
Timed-never_degraded_example =
    Timed-never_degraded lines keys corefile settings dns no_metrics 0 unreachable 1000 60000001000
      60000001000 cut_off_later health_request corefile-accepted cut_off_timed refl
