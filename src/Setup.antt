-- ===== src/Setup.antt =====
-- parseElchi (setup.go): the configuration that a block of the Corefile stands for.
-- Caddy's controller, CoreDNS's normalization of a zone and time.ParseDuration enter as `Caddy`.
pub mod Numbers
pub mod Loops
pub mod Bounds
pub mod Accepts
pub mod Corefile
use elchi_gslb.Prelude.{
  ℕ, zero, suc, ◌+◌, ◌-◌, ◌*◌, ◌^◌, ◌≤◌, ◌<◌, ◌≡◌, Bool, true, false, not, ◌&&◌, List, [], ◌∷◌,
  Option, none, some, ltb, leb, ◌==◌, nat_eq, list_eq, list_eqb, is_empty, if◌then◌else◌,
}
use elchi_gslb.Text.{Text, text, byte_length}
use elchi_gslb.Client.{Attempt, done, failed}
use elchi_gslb.Plugin.{Config}

-- strconv.ParseUint(s, 10, 32)
pub data Uint : Type 0 where
  uint : ℕ → Uint
  invalid_syntax out_of_range : Uint

abbrev pub max_uint32 : ℕ
max_uint32 = 2 ^ 32 - 1

unfoldable pub uint_from : ℕ → Text → Uint
uint_from n [] = uint n
uint_from n (c ∷ s) =
    let rest = uint_from (n * 10 + (c - b'0')) s in
    if not (leb b'0' c && leb c b'9')
    then invalid_syntax
    else if ltb max_uint32 (n * 10 + (c - b'0'))
    then out_of_range
    else rest

unfoldable pub parse_uint : Text → Uint
unfolding uint_from
parse_uint [] = invalid_syntax
parse_uint (c ∷ s) = uint_from 0 (c ∷ s)

-- A duration in nanoseconds, which can be negative.
pub data Duration : Type 0 where
  pos negsuc : ℕ → Duration

-- What parseElchi calls: the controller at a token, its methods, and how many tokens are left.
-- `next_block` has the current token where it returns true. Each call moves on by the tokens it reads.
pub record Caddy : Type 1 where
  pub Controller : Type 0
  pub left : Controller → ℕ
  pub next : Controller → Option Controller
  pub next_block : Controller → Option Text × Controller
  pub next_arg : Controller → Option (Text × Controller)
  pub remaining_args : Controller → List Text × Controller
  pub normalize_exact : Text → List Text
  pub parse_duration : Text → Attempt Duration
  pub next-left : (c c' : Controller) → next c ≡ some c' → left c' < left c
  pub next_block-left :
      (c c' : Controller) (v : Text) → next_block c ≡ (some v, c') → left c' < left c
  pub next_block-left_end : (c c' : Controller) → next_block c ≡ (none, c') → left c' ≤ left c
  pub next_arg-left : (c c' : Controller) (v : Text) → next_arg c ≡ some (v, c') → left c' < left c
  pub remaining_args-left : (c : Controller) → left (remaining_args c).1 ≤ left c

abbrev pub second : ℕ
second = 10 ^ 9

abbrev pub default_ttl : ℕ
default_ttl = 300

abbrev pub default_sync_interval : ℕ
default_sync_interval = 300 * second

abbrev pub default_timeout : ℕ
default_timeout = 4 * second

abbrev pub min_sync_interval : ℕ
min_sync_interval = 5 * second

abbrev pub max_sync_interval : ℕ
max_sync_interval = 300 * second

abbrev pub min_timeout : ℕ
min_timeout = second

abbrev pub min_secret_length : ℕ
min_secret_length = 8

pub data SetupError : Type 0 where
  arg_err ttl_syntax ttl_range ttl_zero : SetupError
  invalid_sync_interval invalid_timeout unknown_directive : Text → SetupError
  sync_interval_below_min sync_interval_above_max timeout_below_min : SetupError
  zone_required endpoint_required secret_required node_ip_required : SetupError
  secret_too_short sync_interval_not_above_timeout : SetupError

-- How a call ends; `exhausted` is the end of the fuel, which never comes.
pub data Parse {ℓ} (A : Type ℓ) : Type ℓ where
  exhausted panicked : Parse A
  refused : SetupError → Parse A
  accepted : A → Parse A

infixl 5 ◌>>=◌
abbrev pub ◌>>=◌ {ℓ κ} : {A : Type ℓ} {B : Type κ} → Parse A → (A → Parse B) → Parse B
exhausted >>= k = exhausted
panicked >>= k = panicked
refused e >>= k = refused e
accepted a >>= k = k a

-- `if cond { return nil, e }`
abbrev pub check {ℓ} : {A : Type ℓ} → Bool → SetupError → Parse A → Parse A
check true e k = refused e
check false e k = k

-- The fields that parseElchi sets, and the arguments that e.Fall is set from.
pub record Settings : Type 0 where
  pub config : Config
  pub fall : Option (List Text)

abbrev pub default_settings : Text → Settings
default_settings zone = record {
  config = record {
    endpoint = [];
    zone = zone;
    secret = [];
    ttl = default_ttl;
    sync_interval = default_sync_interval;
    timeout = default_timeout;
    webhook_addr = text ":8053";
    webhook_enable = false;
    tls_skip_verify = false;
    node_ip = [];
    regions = [];
  };
  fall = none;
}

-- The tests that follow the loops.
unfoldable pub validate : Config → Parse Config
unfolding list_eqb byte_length
validate c = check (c.zone == []) zone_required (
    check (c.endpoint == []) endpoint_required (
      check (c.secret == []) secret_required (
        check (c.node_ip == []) node_ip_required (
          check (ltb (byte_length c.secret) min_secret_length) secret_too_short
            (check (leb c.sync_interval c.timeout) sync_interval_not_above_timeout (accepted c))))))

unfoldable pub set_ttl : Settings → Uint → Parse Settings
set_ttl p invalid_syntax = refused ttl_syntax
set_ttl p out_of_range = refused ttl_range
set_ttl p (uint ttl) =
    check (ttl == 0) ttl_zero (accepted (record p { config = record p.config { ttl = ttl } }))

unfoldable pub set_sync_interval : Settings → Attempt Duration → Parse Settings
set_sync_interval p (failed m) = refused (invalid_sync_interval m)
set_sync_interval p (done (negsuc n)) = refused sync_interval_below_min
set_sync_interval p (done (pos interval)) =
    check (ltb interval min_sync_interval) sync_interval_below_min (
      check (ltb max_sync_interval interval) sync_interval_above_max
        (accepted (record p { config = record p.config { sync_interval = interval } })))

unfoldable pub set_timeout : Settings → Attempt Duration → Parse Settings
set_timeout p (failed m) = refused (invalid_timeout m)
set_timeout p (done (negsuc n)) = refused timeout_below_min
set_timeout p (done (pos timeout)) =
    check (ltb timeout min_timeout) timeout_below_min
      (accepted (record p { config = record p.config { timeout = timeout } }))

unfoldable pub set_regions : Settings → List Text → Parse Settings
set_regions p [] = refused arg_err
set_regions p (arg ∷ args) =
    accepted (record p { config = record p.config { regions = arg ∷ args } })

module _ (caddy : Caddy) where
  -- `if !c.NextArg() { return nil, c.ArgErr() }`, and c.Val()
  abbrev with_arg : caddy.Controller → (Text → Parse Settings) → Parse (Settings × caddy.Controller)
  with_arg c k = elim (caddy.next_arg c) [
    | none ↦ refused arg_err
    | some (v, c') ↦ k v >>= λ p. accepted (p, c')
  ]
