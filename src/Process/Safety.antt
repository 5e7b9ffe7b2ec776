-- ===== src/Process/Safety.antt =====
-- What the goroutines of the plugin keep, however their critical sections fall (elchi.go, webhook.go).
use elchi_gslb.Prelude.{
  ℕ, ◌≡◌, subst, true, List, [], ◌∷◌, ◌++◌, some, list_eq, nat_eq, All, All-remove,
}
use elchi_gslb.Cache.{RecordCache, update, delete}
use elchi_gslb.Cache.Invariant.{update-IsValid, delete-IsValid, new_record_cache-IsValid}
use elchi_gslb.Cache.Merge.{get-update, get-delete}
use elchi_gslb.Cache.Valid.{IsValid}
use elchi_gslb.Plugin.{Config, Metrics, ready}
use elchi_gslb.Serve.{Dns, Query, Msg, written, serve_dns_between}
use elchi_gslb.Serve.Answers.{IsSound}
use elchi_gslb.Serve.Between.{serve_dns_between-IsSound}
use elchi_gslb.Process.Kept.{IsKept, Step-kept, Reach-kept}
use elchi_gslb.Sync.Ready.{ready_iff}
use elchi_gslb.Cache.{replace_from_snapshot}
use elchi_gslb.Cache.Replace.{get-replace_from_snapshot}
use elchi_gslb.Cache.Invariant.{replace-IsValid}
use elchi_gslb.Sync.{fresh_elchi}
use elchi_gslb.Webhook.{Endpoint}
use elchi_gslb.Process.{
  Process, Task, handling, deleting, querying, begin, shutdown, Step, loads, ticks, asks, answered,
  returns, arrives, merges, deletes, handles, looks_up, serves, shuts_down, Reach, here, next,
}

-- The cache that a query in flight has met is as valid as any.
abbrev pub TaskIsValid : Task → Type 0
TaskIsValid (handling endpoint r) = Unit {0}
TaskIsValid (deleting dels) = Unit {0}
TaskIsValid (querying q first) = IsValid first

pub record IsSafe (p : Process) : Type 0 where
  pub valid : IsValid p.elchi.cache
  pub tasks : All TaskIsValid p.in_flight

tasks_after :
    {p : Process} (before after : List Task) (t : Task)
    → p.in_flight ≡ before ++ (t ∷ after)
    → IsSafe p
    → TaskIsValid t × All TaskIsValid (before ++ after)
tasks_after before after t same h =
    All-remove TaskIsValid before after t (subst (All TaskIsValid) same h.tasks)

IsValid-IsKept : IsKept IsValid
IsValid-IsKept = record {
  replaced = λ c s ttl now _ v. replace-IsValid c v (some s) ttl now;
  updated = λ c records ttl now v. update-IsValid c v records ttl now;
  deleted = λ c dels now v. delete-IsValid c v dels now;
}

module _ (dns : Dns) where
  Step-tasks : {p p' : Process} → Step dns p p' → IsSafe p → All TaskIsValid p'.in_flight
  Step-tasks (loads net now _) h = h.tasks
  Step-tasks (ticks _) h = h.tasks
  Step-tasks (asks start _ _) h = h.tasks
  Step-tasks (answered net before start now _) h = h.tasks
  Step-tasks (returns _ _) h = h.tasks
  Step-tasks (arrives endpoint r _) h = (tt, h.tasks)
  Step-tasks (merges before after r req now same _) h =
      (tt, (tasks_after before after (handling Endpoint.notify r) same h).1)
  Step-tasks (deletes before after dels now same) h =
      (tasks_after before after (deleting dels) same h).1
  Step-tasks (handles before after endpoint r now same _) h =
      (tasks_after before after (handling endpoint r) same h).1
  Step-tasks (looks_up q _) h = (h.valid, h.tasks)
  Step-tasks (serves before after q first same) h =
      (tasks_after before after (querying q first) same h).1
  Step-tasks (shuts_down _) h = unfold shutdown in h.tasks

  -- Every state keeps a valid cache, and only valid caches are in flight.
  pub Reach-IsSafe : {p₀ p : Process} → Reach dns p₀ p → IsSafe p₀ → IsSafe p
  Reach-IsSafe here h = h
  Reach-IsSafe (next run step) h =
      let before = Reach-IsSafe run h in
      record {
        valid = Step-kept IsValid IsValid-IsKept dns step before.valid;
        tasks = Step-tasks step before;
      }

pub begin-IsSafe :
    (config : Config) (metrics : Metrics) (gauge : ℕ) → IsSafe (begin config metrics gauge)
unfolding fresh_elchi
begin-IsSafe config metrics gauge = record {
  valid = new_record_cache-IsValid config.zone gauge;
  tasks = tt;
}

-- However the critical sections of queries, notifications and syncs fall, from the first call of
-- InitClient until after Shutdown: where a query in flight, whose first lookup met one cache and whose
-- second meets another, is answered with a message, the message is authoritative, and is NXDOMAIN with
-- no answer, or success with some answer, all of whose records have the normalized name and the type
-- asked for, or all of them the type CNAME.
pub Reach-IsSound :
    (dns : Dns) (config : Config) (metrics : Metrics) (gauge : ℕ) (p : Process)
    (before after : List Task) (q : Query) (first : RecordCache) (m : Msg) (code : ℕ)
    → Reach dns (begin config metrics gauge) p
    → p.in_flight ≡ before ++ (querying q first ∷ after)
    → (serve_dns_between dns p.elchi.cache (record p.elchi { cache = first }) q).1 ≡ written m code
    → IsSound q m code
Reach-IsSound dns config metrics gauge p before after q first m code run same =
    let safe : IsSafe p = Reach-IsSafe dns run (begin-IsSafe config metrics gauge) in
    serve_dns_between-IsSound dns p.elchi.cache (record p.elchi { cache = first }) q m code
      (tasks_after before after (querying q first) same safe).0 safe.valid

ready-IsKept : IsKept (λ c. ready (some c) ≡ true)
ready-IsKept = record {
  replaced = λ c s ttl now some_hash _.
      (ready_iff (replace_from_snapshot c (some s) ttl now).0).1
        (rw (get-replace_from_snapshot c s ttl now [] 0).1 some_hash);
  updated = λ c records ttl now h.
      (ready_iff (update c records ttl now).0).1
        (rw (get-update c records ttl now [] 0).1 ((ready_iff c).0 h));
  deleted = λ c dels now h.
      (ready_iff (delete c dels now).0).1 (rw (get-delete c dels now [] 0).1 ((ready_iff c).0 h));
}

-- Once the plugin is ready it stays ready, whatever its goroutines do.
pub Reach-ready :
    (dns : Dns) (p₀ p : Process)
    → Reach dns p₀ p
    → ready (some p₀.elchi.cache) ≡ true
    → ready (some p.elchi.cache) ≡ true
Reach-ready dns p₀ p run = Reach-kept (λ c. ready (some c) ≡ true) ready-IsKept dns run
