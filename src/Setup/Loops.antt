-- ===== src/Setup/Loops.antt =====
-- parseElchi (setup.go): the directives, and the two loops over the tokens.
use elchi_gslb.Prelude.{
  ℕ, zero, suc, ◌+◌, true, List, [], ◌∷◌, Option, none, some, ◌==◌, list_eq, nat_eq, list_eqb,
  if◌then◌else◌,
}
use elchi_gslb.Text.{Text, text}
use elchi_gslb.Setup.{
  Caddy, Parse, exhausted, panicked, refused, accepted, ◌>>=◌, Settings, default_settings, with_arg,
  set_ttl, set_sync_interval, set_timeout, set_regions, parse_uint, validate, unknown_directive,
}

-- The zone that the first key of the server block names; the first element of an empty slice panics.
abbrev pub first_zone : List Text → Parse Text
first_zone [] = panicked
first_zone (zone ∷ zones) = accepted zone

module _ (caddy : Caddy) where
  abbrev pub zone_of : List Text → Parse Text
  zone_of [] = accepted []
  zone_of (key ∷ keys) = first_zone (caddy.normalize_exact key)

  abbrev pub set_webhook : Settings → caddy.Controller → Settings × caddy.Controller
  set_webhook p c = elim (caddy.next_arg c) [
    | none ↦ (record p { config = record p.config { webhook_enable = true } }, c)
    | some (v, c') ↦
        (record p { config = record p.config { webhook_enable = true; webhook_addr = v } }, c')
  ]

  -- The switch over c.Val().
  unfoldable pub directive :
      Text → Settings → caddy.Controller → Parse (Settings × caddy.Controller)
  unfolding list_eqb set_ttl set_sync_interval set_timeout set_regions parse_uint
  directive v p c =
      if v == text "endpoint"
      then with_arg caddy c (λ v. accepted (record p { config = record p.config { endpoint = v } }))
      else if v == text "secret"
      then with_arg caddy c (λ v. accepted (record p { config = record p.config { secret = v } }))
      else if v == text "ttl"
      then with_arg caddy c (λ v. set_ttl p (parse_uint v))
      else if v == text "sync_interval"
      then with_arg caddy c (λ v. set_sync_interval p (caddy.parse_duration v))
      else if v == text "timeout"
      then with_arg caddy c (λ v. set_timeout p (caddy.parse_duration v))
      else if v == text "webhook"
      then accepted (set_webhook p c)
      else if v == text "fallthrough"
      then (let (args, c') = caddy.remaining_args c in accepted (record p { fall = some args }, c'))
      else if v == text "tls_skip_verify"
      then accepted (record p { config = record p.config { tls_skip_verify = true } }, c)
      else if v == text "node_ip"
      then with_arg caddy c (λ v. accepted (record p { config = record p.config { node_ip = v } }))
      else if v == text "regions"
      then (let (args, c') = caddy.remaining_args c in
          set_regions p args >>= λ p'. accepted (p', c'))
      else refused (unknown_directive v)

  -- Whether NextBlock returns true, and what is done at its token then.
  abbrev pub at_token :
      Settings
      → (Text → caddy.Controller → Parse (Settings × caddy.Controller))
      → Option Text × caddy.Controller
      → Parse (Settings × caddy.Controller)
  at_token p k (none, c) = accepted (p, c)
  at_token p k (some v, c) = k v c

  -- `for c.NextBlock()`
  unfoldable pub block : ℕ → Settings → caddy.Controller → Parse (Settings × caddy.Controller)
  unfolding directive
  block zero p c = exhausted
  block (suc fuel) p c =
      at_token p (λ v c'. directive v p c' >>= λ got. block fuel got.0 got.1) (caddy.next_block c)

  abbrev pub at_next :
      Settings → (caddy.Controller → Parse Settings) → Option caddy.Controller → Parse Settings
  at_next p k none = accepted p
  at_next p k (some c) = k c

  -- `for c.Next()`; a token more than are left is fuel enough for each loop.
  unfoldable pub blocks : ℕ → Settings → caddy.Controller → Parse Settings
  blocks zero p c = exhausted
  blocks (suc fuel) p c =
      at_next p (λ c'. block (caddy.left c' + 1) p c' >>= λ got. blocks fuel got.0 got.1)
        (caddy.next c)

  -- parseElchi on the keys of the server block, up to the call of InitClient.
  unfoldable pub parse_elchi : List Text → caddy.Controller → Parse Settings
  unfolding blocks validate
  parse_elchi keys c = zone_of keys >>= λ zone.
      blocks (caddy.left c + 1) (default_settings zone) c >>= λ p.
      validate p.config >>= λ config. accepted p
