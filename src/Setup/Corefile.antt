-- ===== src/Setup/Corefile.antt =====
-- The block of a Corefile, line by line, as parseElchi (setup.go) reads it.
pub mod Accepted
use elchi_gslb.Prelude.{
  ℕ, zero, suc, ◌+◌, ◌≤◌, ◌<◌, ◌≡◌, ◌≢◌, refl, true, false, List, [], ◌∷◌, none, some, ltb, ◌==◌,
  nat_eq, list_eq, list_eqb, nat_eqb_iff, list_eqb_iff, arith,
}
use elchi_gslb.Text.{Text, text, byte_length}
use elchi_gslb.Client.{done}
use elchi_gslb.Plugin.{Config}
use elchi_gslb.Setup.{
  Caddy, accepted, Settings, default_settings, with_arg, set_ttl, set_sync_interval, set_timeout,
  set_regions, parse_uint, uint, pos, min_sync_interval, max_sync_interval, min_timeout,
  min_secret_length, validate,
}
use elchi_gslb.Setup.Loops.{parse_elchi, block, blocks, directive, set_webhook}

-- What one directive with its arguments makes of the settings, with no controller in sight.
pub data Sets (caddy : Caddy) : Settings → Text → List Text → Settings → Type 0 where
  endpoint :
      {p : Settings} (a : Text)
      → Sets caddy p
          (text "endpoint")
          (a ∷ [])
          (record p { config = record p.config { endpoint = a } })
  secret :
      {p : Settings} (a : Text)
      → Sets caddy p (text "secret") (a ∷ []) (record p { config = record p.config { secret = a } })
  ttl :
      {p : Settings} (a : Text) (n : ℕ)
      → parse_uint a ≡ uint n
      → n ≢ 0
      → Sets caddy p (text "ttl") (a ∷ []) (record p { config = record p.config { ttl = n } })
  sync_interval :
      {p : Settings} (a : Text) (n : ℕ)
      → caddy.parse_duration a ≡ done (pos n)
      → min_sync_interval ≤ n
      → n ≤ max_sync_interval
      → Sets caddy p
          (text "sync_interval")
          (a ∷ [])
          (record p { config = record p.config { sync_interval = n } })
  timeout :
      {p : Settings} (a : Text) (n : ℕ)
      → caddy.parse_duration a ≡ done (pos n)
      → min_timeout ≤ n
      → Sets caddy p
          (text "timeout")
          (a ∷ [])
          (record p { config = record p.config { timeout = n } })
  webhook :
      {p : Settings}
      → Sets caddy p
          (text "webhook")
          []
          (record p { config = record p.config { webhook_enable = true } })
  webhook_at :
      {p : Settings} (a : Text)
      → Sets caddy p
          (text "webhook")
          (a ∷ [])
          (record p { config = record p.config { webhook_enable = true; webhook_addr = a } })
  falls :
      {p : Settings} (args : List Text)
      → Sets caddy p (text "fallthrough") args (record p { fall = some args })
  tls_skip_verify :
      {p : Settings}
      → Sets caddy p
          (text "tls_skip_verify")
          []
          (record p { config = record p.config { tls_skip_verify = true } })
  node_ip :
      {p : Settings} (a : Text)
      → Sets caddy p
          (text "node_ip")
          (a ∷ [])
          (record p { config = record p.config { node_ip = a } })
  regions :
      {p : Settings} (a : Text) (args : List Text)
      → Sets caddy p
          (text "regions")
          (a ∷ args)
          (record p { config = record p.config { regions = a ∷ args } })

-- The lines of a block, one after another.
pub data SetsAll (caddy : Caddy) : Settings → List (Text × List Text) → Settings → Type 0 where
  finished : {p : Settings} → SetsAll caddy p [] p
  then_line :
      {p p' p'' : Settings} {v : Text} {args : List Text} {lines : List (Text × List Text)}
      → Sets caddy p v args p'
      → SetsAll caddy p' lines p''
      → SetsAll caddy p ((v, args) ∷ lines) p''

module _ (caddy : Caddy) where
  -- What NextArg returns where these arguments are left on the line.
  abbrev pub FirstArg : caddy.Controller → List Text → caddy.Controller → Type 0
  FirstArg c [] c' = (caddy.next_arg c ≡ none) × (c ≡ c')
  FirstArg c (a ∷ []) c' = caddy.next_arg c ≡ some (a, c')
  FirstArg c (a ∷ b ∷ args) c' = Unit {0}

-- The controller at a token whose line goes on with these arguments.
pub record HasArgs (caddy : Caddy) (c : caddy.Controller) (args : List Text) (c' : caddy.Controller)
    : Type 0 where
  pub remaining : caddy.remaining_args c ≡ (args, c')
  pub first : FirstArg caddy c args c'

-- The controller at a block of these lines, and after it.
pub data Reads (caddy : Caddy)
    : caddy.Controller → List (Text × List Text) → caddy.Controller → Type 0 where
  closes : {c c' : caddy.Controller} → caddy.next_block c ≡ (none, c') → Reads caddy c [] c'
  line :
      {c c₁ c₂ c' : caddy.Controller} {v : Text} {args : List Text}
      {lines : List (Text × List Text)}
      → caddy.next_block c ≡ (some v, c₁)
      → HasArgs caddy c₁ args c₂
      → Reads caddy c₂ lines c'
      → Reads caddy c ((v, args) ∷ lines) c'
