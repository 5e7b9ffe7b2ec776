-- ===== src/Setup/Accepts.antt =====
-- What parseElchi (setup.go) accepts, and the end of its two loops.
use elchi_gslb.Prelude.{
  ℕ, zero, suc, ◌+◌, ◌≤◌, ◌<◌, ◌≡◌, ◌≢◌, refl, subst, List, [], ◌∷◌, Option, none, some, ltb, leb,
  ◌==◌, list_eq, nat_eq, list_eqb_iff, arith, Option-cases, inl, inr,
}
use elchi_gslb.Text.{Text, text, byte_length}
use elchi_gslb.Plugin.{Config}
use elchi_gslb.Setup.{
  Caddy, Parse, exhausted, accepted, Settings, default_settings, with_arg, zone_required,
  endpoint_required, secret_required, node_ip_required, secret_too_short,
  sync_interval_not_above_timeout, validate, min_secret_length, parse_uint,
}
use elchi_gslb.Setup.Loops.{
  directive, block, blocks, parse_elchi, at_token, set_webhook, first_zone, zone_of,
}
use elchi_gslb.Setup.Bounds.{
  InBounds, OnParse, panics, refuses, accepts, OnParse-if, OnParse-accepted, OnParse-ends,
  OnParse-bind, OnParse-check, Bounded, parse_uint-OnUint, set_ttl-Bounded,
  set_sync_interval-Bounded, set_timeout-Bounded, set_regions-Bounded,
}

-- What the plugin can be run with.
pub record IsRunnable (c : Config) : Type 0 where
  pub bounds : InBounds c.ttl c.sync_interval c.timeout
  pub zone_given : c.zone ≢ []
  pub endpoint_given : c.endpoint ≢ []
  pub node_ip_given : c.node_ip ≢ []
  pub secret_long : min_secret_length ≤ byte_length c.secret
  pub interval_above_timeout : c.timeout < c.sync_interval

validate-IsRunnable :
    (p : Settings) → Bounded p → OnParse (λ c. (c ≡ p.config) × IsRunnable c) (validate p.config)
unfolding validate
validate-IsRunnable p h =
    let c : Config = p.config in
    OnParse-check (c.zone == []) zone_required λ zone.
      OnParse-check (c.endpoint == []) endpoint_required λ endpoint.
        OnParse-check (c.secret == []) secret_required λ secret.
          OnParse-check (c.node_ip == []) node_ip_required λ node_ip.
            OnParse-check (ltb (byte_length c.secret) min_secret_length) secret_too_short λ long.
              OnParse-check (leb c.sync_interval c.timeout) sync_interval_not_above_timeout λ above.
                accepts (
                  refl,
                  record {
                    bounds = h;
                    zone_given = ground (arith, list_eqb_iff c.zone []);
                    endpoint_given = ground (arith, list_eqb_iff c.endpoint []);
                    node_ip_given = ground (arith, list_eqb_iff c.node_ip []);
                    secret_long = ground arith;
                    interval_above_timeout = ground arith;
                  },
                )

default_bounds : (zone : Text) → Bounded (default_settings zone)
default_bounds zone = record {
  ttl_positive = omega arith;
  ttl_max = omega arith;
  sync_interval_min = omega arith;
  sync_interval_max = omega arith;
  timeout_min = omega arith;
}

first_zone-OnParse : (zones : List Text) → OnParse (λ zone. Unit {0}) (first_zone zones)
first_zone-OnParse [] = panics
first_zone-OnParse (zone ∷ zones) = accepts tt

module _ (caddy : Caddy) where
  -- A result in bounds, with no more tokens left than there were.
  abbrev Moved : ℕ → Settings × caddy.Controller → Type 0
  Moved n (p, c) = Bounded p × (caddy.left c ≤ n)

  with_arg-Moved :
      (c : caddy.Controller) (k : Text → Parse Settings)
      → ((v : Text) → OnParse Bounded (k v))
      → OnParse (Moved (caddy.left c)) (with_arg caddy c k)
  with_arg-Moved c k h = elim (Option-cases (caddy.next_arg c)) [
    | inl absent ↦ rw (absent, with_arg) refuses
    | inr ((v, c'), given) ↦
        rw (given, with_arg)
          (OnParse-bind (h v) λ p b. accepts (b, omega (arith, caddy.next_arg-left c c' v given)))
  ]

  set_webhook-Moved :
      (p : Settings) (c : caddy.Controller)
      → Bounded p
      → Moved (caddy.left c) (set_webhook caddy p c)
  set_webhook-Moved p c h = elim (Option-cases (caddy.next_arg c)) [
    | inl absent ↦ rw (absent, set_webhook) (h, omega arith)
    | inr ((v, c'), given) ↦
        rw (given, set_webhook) (h, omega (arith, caddy.next_arg-left c c' v given))
  ]

  directive-Moved :
      (v : Text) (p : Settings) (c : caddy.Controller)
      → Bounded p
      → OnParse (Moved (caddy.left c)) (directive caddy v p c)
  unfolding directive
  directive-Moved v p c h =
      let args_left : caddy.left (caddy.remaining_args c).1 ≤ caddy.left c =
        caddy.remaining_args-left c in
      OnParse-if (v == text "endpoint") (with_arg-Moved c _ λ v. accepts h) (
        OnParse-if (v == text "secret") (with_arg-Moved c _ λ v. accepts h) (
          OnParse-if (v == text "ttl")
            (with_arg-Moved c _ λ v. set_ttl-Bounded p h (parse_uint v) (parse_uint-OnUint v))
            (OnParse-if (v == text "sync_interval")
              (with_arg-Moved c _ λ v. set_sync_interval-Bounded p h (caddy.parse_duration v))
              (OnParse-if (v == text "timeout")
                (with_arg-Moved c _ λ v. set_timeout-Bounded p h (caddy.parse_duration v))
                (OnParse-if (v == text "webhook") (accepts (set_webhook-Moved p c h)) (
                  OnParse-if (v == text "fallthrough") (accepts (h, args_left)) (
                    OnParse-if (v == text "tls_skip_verify") (accepts (h, omega arith)) (
                      OnParse-if (v == text "node_ip") (with_arg-Moved c _ λ v. accepts h) (
                        OnParse-if (v == text "regions")
                          (OnParse-bind (set_regions-Bounded p h (caddy.remaining_args c).0)
                            λ p' b. accepts (b, args_left))
                          refuses)))))))))

  OnParse-weaken :
      {m n : ℕ} {r : Parse (Settings × caddy.Controller)}
      → m ≤ n
      → OnParse (Moved m) r
      → OnParse (Moved n) r
  OnParse-weaken le panics = panics
  OnParse-weaken le refuses = refuses
  OnParse-weaken le (accepts (b, left)) = accepts (b, omega arith)

  at_token-Moved :
      (p : Settings) (c : caddy.Controller)
      (k : Text → caddy.Controller → Parse (Settings × caddy.Controller))
      → Bounded p
      → ((v : Text) (c' : caddy.Controller)
          → caddy.left c' < caddy.left c
          → OnParse (Moved (caddy.left c)) (k v c'))
      → (got : Option Text × caddy.Controller) → caddy.next_block c ≡ got
      → OnParse (Moved (caddy.left c)) (at_token caddy p k got)
  at_token-Moved p c k h each (none, c') end = accepts (h, caddy.next_block-left_end c c' end)
  at_token-Moved p c k h each (some v, c') found = each v c' (caddy.next_block-left c c' v found)

  block-Moved :
      (fuel : ℕ) (p : Settings) (c : caddy.Controller)
      → caddy.left c < fuel
      → Bounded p
      → OnParse (Moved (caddy.left c)) (block caddy fuel p c)
  unfolding block
  block-Moved zero p c enough h = ground arith
  block-Moved (suc fuel) p c enough h =
      at_token-Moved p c _ h
        (λ v c' less. OnParse-bind (directive-Moved v p c' h) λ (p', c'') (b, left).
          OnParse-weaken (omega arith) (block-Moved fuel p' c'' (omega arith) b))
        (caddy.next_block c) refl

  blocks-Bounded :
      (fuel : ℕ) (p : Settings) (c : caddy.Controller)
      → caddy.left c < fuel
      → Bounded p
      → OnParse Bounded (blocks caddy fuel p c)
  unfolding blocks
  blocks-Bounded zero p c enough h = ground arith
  blocks-Bounded (suc fuel) p c enough h = elim (Option-cases (caddy.next c)) [
    | inl end ↦ rw end (accepts h)
    | inr (c', found) ↦
        let less : caddy.left c' < caddy.left c = caddy.next-left c c' found in
        rw found (
          OnParse-bind (block-Moved (caddy.left c' + 1) p c' (omega arith) h)
            λ (p', c'') (b, left). blocks-Bounded fuel p' c'' (omega arith) b)
  ]

  zone_of-OnParse : (keys : List Text) → OnParse (λ zone. Unit {0}) (zone_of caddy keys)
  zone_of-OnParse [] = accepts tt
  zone_of-OnParse (key ∷ keys) = first_zone-OnParse (caddy.normalize_exact key)

  parse_elchi-OnParse :
      (keys : List Text) (c : caddy.Controller)
      → OnParse (λ p. IsRunnable p.config) (parse_elchi caddy keys c)
  unfolding parse_elchi
  parse_elchi-OnParse keys c = OnParse-bind (zone_of-OnParse keys) λ zone _.
      OnParse-bind
        (blocks-Bounded (caddy.left c + 1) (default_settings zone) c (omega arith)
          (default_bounds zone))
        λ p bounded.
          OnParse-bind (validate-IsRunnable p bounded)
            λ config (same, runnable). accepts (subst IsRunnable same runnable)

  pub parse_elchi-IsRunnable :
      (keys : List Text) (c : caddy.Controller) (p : Settings)
      → parse_elchi caddy keys c ≡ accepted p
      → IsRunnable p.config
  parse_elchi-IsRunnable keys c p = OnParse-accepted (parse_elchi-OnParse keys c)

  -- Both loops of parseElchi end: a token more than the controller has left is fuel enough.
  parse_elchi-ends :
      (keys : List Text) (c : caddy.Controller) → parse_elchi caddy keys c ≢ exhausted
  parse_elchi-ends keys c = OnParse-ends (parse_elchi-OnParse keys c)
