-- ===== src/Process/Ending.antt =====
-- How the goroutines come to their end after Shutdown (elchi.go).
use elchi_gslb.Prelude.{
  inl, inr, ◌⊎◌, ℕ, ◌≡◌, ◌≢◌, refl, sym, ◌∙◌, true, List, [], ◌∷◌, some, list_eq, nat_eq,
}
use elchi_gslb.Record.{DnsSnapshot}
use elchi_gslb.Cache.{replace_from_snapshot}
use elchi_gslb.Client.{Net}
use elchi_gslb.Plugin.{Elchi}
use elchi_gslb.Serve.{Dns, serve_dns_between}
use elchi_gslb.Sync.Fresh.{Given}
use elchi_gslb.Sync.Race.{between-Given}
use elchi_gslb.Webhook.{apply_deletes, count_webhook}
use elchi_gslb.Text.{text}
use elchi_gslb.Webhook.{Endpoint, Request, NotifyRequest}
use elchi_gslb.Process.Accepted.{accepts_or_not}
use elchi_gslb.Process.{
  merges, handles, IsAccepted, Process, Background, fetching, waiting, ended, asking, Task,
  handling, deleting, querying, answered, returns, deletes, serves, shutdown, Reach, here, next,
}
use elchi_gslb.Process.Shutdown.{IsDown, stop-ne-listening}

Reach-trans : (dns : Dns) {p₀ p p' : Process} → Reach dns p₀ p → Reach dns p p' → Reach dns p₀ p'
Reach-trans dns run here = run
Reach-trans dns run (next more step) = next (Reach-trans dns run more) step

-- What the tasks in flight leave alone, and what is left of them.
abbrev IsSettled : List Task → Process → Process → Type 0
IsSettled rest p p' =
    (p'.background ≡ p.background)
    × (p'.server ≡ p.server)
    × (p'.cancelled ≡ p.cancelled)
    × (p'.in_flight ≡ rest)

module _ (dns : Dns) where
  answers_request :
      (endpoint : Endpoint) (r : Request) (rest : List Task) (p : Process)
      → p.in_flight ≡ handling endpoint r ∷ rest
      → (endpoint ≢ Endpoint.notify) ⊎ ((req : NotifyRequest) → ¬ IsAccepted p.elchi r req)
      → (p' : Process) × (Reach dns p p') × IsSettled rest p p'
  answers_request endpoint r rest p same refused =
      (_, next here (handles [] rest endpoint r 0 same refused), (refl, refl, refl, refl))

  answers_notification :
      (r : Request) (rest : List Task) (p : Process)
      → p.in_flight ≡ handling Endpoint.notify r ∷ rest
      → (p' : Process) × (Reach dns p p') × IsSettled rest p p'
  answers_notification r rest p same = elim (accepts_or_not p.elchi r r.notify refl) [
    | inl (req, a) ↦ (
      _,
      next (next here (merges [] rest r req 0 same a)) (deletes [] rest req.deletes 0 refl),
      (refl, refl, refl, refl),
    )
    | inr refused ↦ answers_request Endpoint.notify r rest p same (inr refused)
  ]

  -- A request in flight can be answered, by itself.
  answers :
      (endpoint : Endpoint) (r : Request) (rest : List Task) (p : Process)
      → p.in_flight ≡ handling endpoint r ∷ rest
      → (p' : Process) × (Reach dns p p') × IsSettled rest p p'
  answers Endpoint.health r rest p same =
      answers_request Endpoint.health r rest p same (inl (λ e. cc))
  answers Endpoint.records r rest p same =
      answers_request Endpoint.records r rest p same (inl (λ e. cc))
  answers Endpoint.notify r rest p same = answers_notification r rest p same

  -- Every task in flight can finish, by itself.
  settles :
      (tasks : List Task) (p : Process)
      → p.in_flight ≡ tasks
      → (p' : Process) × (Reach dns p p') × IsSettled [] p p'
  settles [] p none_left = (p, here, (refl, refl, refl, none_left))
  settles (handling endpoint r ∷ rest) p same =
      let (q, run, (background, server, cancelled, left)) = answers endpoint r rest p same in
      let (p', run', (background', server', cancelled', left')) = settles rest q left in
      (
        p',
        Reach-trans dns run run',
        (background' ∙ background, server' ∙ server, cancelled' ∙ cancelled, left'),
      )
  settles (deleting dels ∷ rest) p same =
      let q : Process = record p {
        elchi = count_webhook (text "notify") (text "success") (apply_deletes 0 p.elchi dels).0;
        in_flight = rest;
      } in
      let (p', run, settled) = settles rest q refl in
      (p', Reach-trans dns (next here (deletes [] rest dels 0 same)) run, settled)
  settles (querying query first ∷ rest) p same =
      let q : Process = record p {
        elchi = (serve_dns_between dns p.elchi.cache (record p.elchi { cache = first }) query).0;
        in_flight = rest;
      } in
      let (p', run, settled) = settles rest q refl in
      (p', Reach-trans dns (next here (serves [] rest query first same)) run, settled)

  -- The loop can return from a state in which it is told to.
  loop_returns :
      (net : Net) (now : ℕ) (b : Background) (p : Process)
      → p.background ≡ b
      → b ≢ fetching
      → p.cancelled ≡ true
      → (p' : Process) × (Reach dns p p')
        × (p'.background ≡ ended)
        × (p'.server ≡ p.server)
        × (p'.cancelled ≡ true)
        × (p'.in_flight ≡ p.in_flight)
  loop_returns net now fetching p same ne c = absurd (ne refl)
  loop_returns net now waiting p same ne c = (_, next here (returns same c), refl, refl, c, refl)
  loop_returns net now ended p same ne c = (p, here, same, refl, c, refl)
  loop_returns net now (asking before start) p same ne c = (
    _,
    next (next here (answered net before start now same)) (returns refl c),
    refl,
    refl,
    c,
    refl,
  )

  -- Whatever state Shutdown finds after InitClient, everything can come to its end from there: requests
  -- and queries in flight finish, a sync gets its response, and the loop returns.
  pub shutdown-IsDown :
      (net : Net) (now : ℕ) (p : Process)
      → p.background ≢ fetching
      → (p' : Process) × (Reach dns (shutdown p) p') × IsDown p'
  unfolding shutdown
  shutdown-IsDown net now p begun =
      let (q, settling, (background, server, cancelled, quiet)) =
        settles p.in_flight (shutdown p) refl in
      let (p', returning, returned, s, c, f) =
        loop_returns net now q.background q refl (λ e. begun (sym background ∙ e)) cancelled in
      (
        p',
        Reach-trans dns settling returning,
        record {
          cancelled = c;
          returned = returned;
          refusing = (λ l. stop-ne-listening p.server (sym server ∙ sym s ∙ l));
          quiet = rw (f ∙ quiet) tt;
        },
      )

  -- Shutdown does not end a sync that waits for the controller: its snapshot is still loaded.
  pub shutdown-Given :
      (net : Net) (before : Elchi) (start now : ℕ) (p : Process) (s : DnsSnapshot)
      → p.background ≡ asking before start
      → Given net before s
      → (p' : Process) × (Reach dns (shutdown p) p')
        × (p'.cancelled ≡ true)
        × (p'.elchi.cache ≡ (replace_from_snapshot p.elchi.cache (some s) p.elchi.ttl now).0)
  unfolding shutdown
  shutdown-Given net before start now p s waits given = (
    _,
    next here (answered net before start now waits),
    refl,
    between-Given net start now before p.elchi s given,
  )
