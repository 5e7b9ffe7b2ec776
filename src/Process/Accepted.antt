-- ===== src/Process/Accepted.antt =====
-- Whether a request is a notification that takes effect (webhook.go).
use elchi_gslb.Prelude.{◌≡◌, ◌⊎◌, ◌==◌, list_eq, nat_eq, list_eqb_iff, Bool-cases, inl, inr}
use elchi_gslb.Text.{text}
use elchi_gslb.Plugin.{Elchi}
use elchi_gslb.Webhook.{Request, NotifyRequest, Decoded, decoded, undecodable}
use elchi_gslb.Process.{IsAccepted}

pub accepts_or_not :
    (e : Elchi) (r : Request) (body : Decoded)
    → r.notify ≡ body
    → ((req : NotifyRequest) × IsAccepted e r req) ⊎ ((req : NotifyRequest) → ¬ IsAccepted e r req)
accepts_or_not e r (undecodable m) same = inr (λ req a. cc (same, a.body))
accepts_or_not e r (decoded req) same = elim (Bool-cases (r.secret == e.secret)) [
  | inr other ↦ inr (λ req a. cc (other, (list_eqb_iff r.secret e.secret).1 a.authorized))
  | inl authorized ↦ elim (Bool-cases (r.method == text "POST")) [
    | inr other ↦ inr (λ req a. cc (other, (list_eqb_iff r.method (text "POST")).1 a.posted))
    | inl posted ↦ inl (
      req,
      record {
        authorized = (list_eqb_iff r.secret e.secret).0 authorized;
        posted = (list_eqb_iff r.method (text "POST")).0 posted;
        body = same;
      },
    )
  ]
]
