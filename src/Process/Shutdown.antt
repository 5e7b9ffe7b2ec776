-- ===== src/Process/Shutdown.antt =====
-- Shutdown (elchi.go, webhook.go): what still happens after it, and what does not.
use elchi_gslb.Prelude.{
  ℕ, ◌+◌, ◌≤◌, ◌<◌, ◌≡◌, ◌≢◌, ◌⊎◌, inl, inr, refl, ◌∙◌, true, List, [], ◌∷◌, ◌++◌, list_eq, nat_eq,
  arith, All,
}
use elchi_gslb.Cache.{RecordCache}
use elchi_gslb.Plugin.{Elchi}
use elchi_gslb.Serve.{Dns, Query, serve_dns_between}
use elchi_gslb.Serve.Between.{serve_dns_between_cases}
use elchi_gslb.Webhook.{Endpoint}
use elchi_gslb.Process.{
  Process, ended, Server, listening, absent, closed, stop, Task, handling, deleting, querying, Step,
  loads, ticks, asks, answered, returns, arrives, merges, deletes, handles, looks_up, serves,
  shuts_down, shutdown, Reach, here, next,
}

-- Only queries are in flight.
abbrev pub IsQuery : Task → Type 0
IsQuery (handling endpoint r) = ⊥
IsQuery (deleting dels) = ⊥
IsQuery (querying q first) = Unit {0}

-- The loop has returned, no request is accepted, and none is in flight.
pub record IsDown (p : Process) : Type 0 where
  pub cancelled : p.cancelled ≡ true
  pub returned : p.background ≡ ended
  pub refusing : p.server ≢ listening
  pub quiet : All IsQuery p.in_flight

-- What neither a query nor the clock changes.
pub record IsUnchanged (e e' : Elchi) : Type 0 where
  pub cache : e'.cache ≡ e.cache
  pub sync_status : e'.sync_status ≡ e.sync_status

pub serves-sync_status :
    (dns : Dns) (second : RecordCache) (e : Elchi) (q : Query)
    → (serve_dns_between dns second e q).0.sync_status ≡ e.sync_status
unfolding serve_dns_between
serves-sync_status dns second e q = ground arith

pub stop-ne-listening : (s : Server) → stop s ≢ listening
stop-ne-listening absent h = cc
stop-ne-listening listening h = cc
stop-ne-listening closed h = cc

-- The critical sections that the requests in flight have before them in which they can write: two of a
-- request, for a notification merges its records and then deletes; none of a query.
abbrev pub left : List Task → ℕ
left [] = 0
left (handling endpoint r ∷ tasks) = 2 + left tasks
left (deleting dels ∷ tasks) = 1 + left tasks
left (querying q first ∷ tasks) = left tasks

left-append : (xs ys : List Task) → left (xs ++ ys) ≡ left xs + left ys
left-append [] ys = omega arith
left-append (handling endpoint r ∷ xs) ys = omega (arith, left-append xs ys)
left-append (deleting dels ∷ xs) ys = omega (arith, left-append xs ys)
left-append (querying q first ∷ xs) ys = left-append xs ys

-- What a task in flight has left, and what the others have.
left_remove :
    (tasks before after : List Task) (t : Task)
    → tasks ≡ before ++ (t ∷ after)
    → left tasks ≡ left (t ∷ []) + left (before ++ after)
left_remove tasks before after (handling endpoint r) same =
    let parts = left-append before (handling endpoint r ∷ after) in
    rw same (omega (arith, parts, left-append before after))
left_remove tasks before after (deleting dels) same =
    let parts = left-append before (deleting dels ∷ after) in
    rw same (omega (arith, parts, left-append before after))
left_remove tasks before after (querying q first) same =
    let parts = left-append before (querying q first ∷ after) in
    rw same (omega (arith, parts, left-append before after))

-- Shutdown has been called.
abbrev pub IsClosing : Process → Type 0
IsClosing p = (p.cancelled ≡ true) × (p.server ≢ listening)

shutdown-IsClosing : (p : Process) → IsClosing (shutdown p)
unfolding shutdown
shutdown-IsClosing p = (refl, stop-ne-listening p.server)

-- Nothing is written, or a request in flight has less left.
abbrev pub IsPaid : Process → Process → Type 0
IsPaid p p' = (left p'.in_flight < left p.in_flight) ⊎ IsUnchanged p.elchi p'.elchi

IsPaid-trans :
    (p p' p'' : Process)
    → left p'.in_flight ≤ left p.in_flight
    → left p''.in_flight ≤ left p'.in_flight
    → IsPaid p p'
    → IsPaid p' p''
    → IsPaid p p''
IsPaid-trans p p' p'' less less' (inl fewer) paid = inl (omega arith)
IsPaid-trans p p' p'' less less' (inr same) (inl fewer) = inl (omega arith)
IsPaid-trans p p' p'' less less' (inr u) (inr v) =
    inr (record { cache = v.cache ∙ u.cache; sync_status = v.sync_status ∙ u.sync_status })

module _ (dns : Dns) where
  Step-IsClosing :
      {p p' : Process}
      → Step dns p p'
      → IsClosing p
      → IsClosing p' × (left p'.in_flight ≤ left p.in_flight)
  unfolding shutdown
  Step-IsClosing (loads net now f) c = (c, omega arith)
  Step-IsClosing (ticks f) c = (c, omega arith)
  Step-IsClosing (asks start f _) c = (c, omega arith)
  Step-IsClosing (answered net before start now f) c = (c, omega arith)
  Step-IsClosing (returns f _) c = (c, omega arith)
  Step-IsClosing (arrives endpoint r f) c = absurd (c.1 f)
  Step-IsClosing {p} (merges before after r req now same _) c =
      (c, omega (arith, left_remove p.in_flight before after (handling Endpoint.notify r) same))
  Step-IsClosing {p} (deletes before after dels now same) c =
      (c, omega (arith, left_remove p.in_flight before after (deleting dels) same))
  Step-IsClosing {p} (handles before after endpoint r now same _) c =
      (c, omega (arith, left_remove p.in_flight before after (handling endpoint r) same))
  Step-IsClosing (looks_up q _) c = (c, omega arith)
  Step-IsClosing {p} (serves before after q first same) c =
      (c, omega (arith, left_remove p.in_flight before after (querying q first) same))
  Step-IsClosing {p} (shuts_down _) c = ((refl, stop-ne-listening p.server), omega arith)

  Reach-IsClosing :
      {p p' : Process}
      → Reach dns p p'
      → IsClosing p
      → IsClosing p' × (left p'.in_flight ≤ left p.in_flight)
  Reach-IsClosing here c = (c, omega arith)
  Reach-IsClosing (next run step) c =
      let (c', fewer) = Reach-IsClosing run c in
      let (c'', fewer_still) = Step-IsClosing step c' in (c'', omega arith)

  Step-IsPaid :
      {p p' : Process}
      → Step dns p p'
      → p.background ≡ ended
      → IsClosing p
      → (p'.background ≡ ended) × IsPaid p p'
  unfolding shutdown
  Step-IsPaid (loads net now f) e c = absurd (cc (f, e))
  Step-IsPaid (ticks f) e c = absurd (cc (rw e at f))
  Step-IsPaid (asks start f _) e c = absurd (cc (f, e))
  Step-IsPaid (answered net before start now f) e c = absurd (cc (f, e))
  Step-IsPaid (returns f _) e c = absurd (cc (f, e))
  Step-IsPaid (arrives endpoint r f) e c = absurd (c.1 f)
  Step-IsPaid {p} (merges before after r req now same _) e c = (
    e,
    inl (omega (arith, left_remove p.in_flight before after (handling Endpoint.notify r) same)),
  )
  Step-IsPaid {p} (deletes before after dels now same) e c =
      (e, inl (omega (arith, left_remove p.in_flight before after (deleting dels) same)))
  Step-IsPaid {p} (handles before after endpoint r now same _) e c =
      (e, inl (omega (arith, left_remove p.in_flight before after (handling endpoint r) same)))
  Step-IsPaid (looks_up q _) e c = (e, inr (record { cache = refl; sync_status = refl }))
  Step-IsPaid {p} (serves before after q first same) e c = (
    e,
    inr (record {
      cache = (serve_dns_between_cases dns p.elchi.cache (record p.elchi { cache = first }) q).1;
      sync_status = serves-sync_status dns p.elchi.cache (record p.elchi { cache = first }) q;
    }),
  )
  Step-IsPaid {p} (shuts_down _) e c = (e, inr (record { cache = refl; sync_status = refl }))

  Reach-IsPaid :
      {p p' : Process}
      → Reach dns p p'
      → p.background ≡ ended
      → IsClosing p
      → (p'.background ≡ ended) × IsPaid p p'
  Reach-IsPaid here e c = (e, inr (record { cache = refl; sync_status = refl }))
  Reach-IsPaid {p} {p'} (next {p = q} run step) e c =
      let (closing, fewer) = Reach-IsClosing run c in
      let (_, fewer_still) = Step-IsClosing step closing in
      let (ended_there, paid) = Reach-IsPaid run e c in
      let (ended_here, paid_here) = Step-IsPaid step ended_there closing in
      (ended_here, IsPaid-trans p q p' fewer fewer_still paid paid_here)

  -- In every state in which the loop has returned after a Shutdown, whatever state that was called in,
  -- and in every state that follows: the server accepts no request, the loop does not begin again, and
  -- the requests in flight have no more left to do than when Shutdown was called, and never more. From
  -- the one state to the other the cache and the sync status are the same, unless a request in flight
  -- has got on between them; so where no request is in flight they never change again.
  pub shutdown-IsPaid :
      (p : Process) {p' p'' : Process}
      → Reach dns (shutdown p) p'
      → p'.background ≡ ended
      → Reach dns p' p''
      → IsClosing p''
        × (p''.background ≡ ended)
        × (left p''.in_flight ≤ left p'.in_flight)
        × (left p'.in_flight ≤ left p.in_flight)
        × IsPaid p' p''
  shutdown-IsPaid p run e more =
      let (closing, fewer) = Reach-IsClosing run (shutdown-IsClosing p) in
      let (closing_still, fewer_still) = Reach-IsClosing more closing in
      let (ended_still, paid) = Reach-IsPaid more e closing in
      (closing_still, ended_still, fewer_still, unfold shutdown in fewer, paid)
