-- ===== src/Process/Kept.antt =====
-- What every critical section does to the cache (elchi.go, webhook.go): nothing, or one method of it.
use elchi_gslb.Prelude.{ℕ, ◌≢◌, sym, subst, List, [], some, list_eq, nat_eq, inl, inr}
use elchi_gslb.Record.{DnsRecord, DnsSnapshot, DeleteRecord}
use elchi_gslb.Cache.{RecordCache, update, delete, replace_from_snapshot}
use elchi_gslb.Plugin.{Elchi}
use elchi_gslb.Serve.{Dns}
use elchi_gslb.Serve.Between.{serve_dns_between_cases}
use elchi_gslb.Webhook.Notify.{updates_lem, deletes_lem, handle-cache}
use elchi_gslb.Client.{fetch_snapshot}
use elchi_gslb.Sync.{after_initial_fetch, perform_sync_between}
use elchi_gslb.Process.{
  Process, Step, loads, ticks, asks, answered, returns, arrives, merges, deletes, handles, looks_up,
  serves, shuts_down, shutdown, Reach, here, next,
}
use elchi_gslb.Process.Between.{
  IsSynced, perform_sync_between-IsSynced, after_initial_fetch-IsSynced,
}

-- A property of caches that each method keeps, where a snapshot has a version.
pub record IsKept (P : RecordCache → Type 0) : Type 0 where
  pub replaced :
      (c : RecordCache) (s : DnsSnapshot) (ttl now : ℕ)
      → s.version_hash ≢ []
      → P c
      → P (replace_from_snapshot c (some s) ttl now).0
  pub updated :
      (c : RecordCache) (records : List DnsRecord) (ttl now : ℕ)
      → P c
      → P (update c records ttl now).0
  pub deleted :
      (c : RecordCache) (dels : List DeleteRecord) (now : ℕ) → P c → P (delete c dels now).0

module _ (P : RecordCache → Type 0) (kept : IsKept P) where
  synced : (now : ℕ) (e after : Elchi) → IsSynced now e after → P e.cache → P after.cache
  synced now e after (inl same) h = subst P (sym same) h
  synced now e after (inr (s, loaded, some_hash)) h =
      subst P (sym loaded) (kept.replaced e.cache s e.ttl now some_hash h)

  -- Then every step keeps it.
  pub Step-kept : (dns : Dns) {p p' : Process} → Step dns p p' → P p.elchi.cache → P p'.elchi.cache
  Step-kept dns {p} (loads net now _) h =
      synced now p.elchi (after_initial_fetch (fetch_snapshot p.elchi.client net) now p.elchi)
        (after_initial_fetch-IsSynced now p.elchi net) h
  Step-kept dns (ticks _) h = h
  Step-kept dns (asks start _ _) h = h
  Step-kept dns {p} (answered net before start now _) h =
      synced now p.elchi (perform_sync_between net start now before p.elchi)
        (perform_sync_between-IsSynced net start now before p.elchi) h
  Step-kept dns (returns _ _) h = h
  Step-kept dns (arrives endpoint r _) h = h
  Step-kept dns {p} (merges before after r req now _ _) h =
      rw (updates_lem now p.elchi req.records)
        (kept.updated p.elchi.cache req.records p.elchi.ttl now h)
  Step-kept dns {p} (deletes before after dels now _) h =
      rw (deletes_lem now p.elchi dels) (kept.deleted p.elchi.cache dels now h)
  Step-kept dns {p} (handles before after endpoint r now _ _) h =
      handle-cache P now p.elchi r h
        (λ req.
          kept.deleted (update p.elchi.cache req.records p.elchi.ttl now).0 req.deletes now
            (kept.updated p.elchi.cache req.records p.elchi.ttl now h))
        endpoint
  Step-kept dns (looks_up q _) h = h
  Step-kept dns {p} (serves before after q first _) h =
      rw (serve_dns_between_cases dns p.elchi.cache (record p.elchi { cache = first }) q).1 h
  Step-kept dns (shuts_down _) h = unfold shutdown in h

  pub Reach-kept :
      (dns : Dns) {p₀ p : Process} → Reach dns p₀ p → P p₀.elchi.cache → P p.elchi.cache
  Reach-kept dns here h = h
  Reach-kept dns (next run step) h = Step-kept dns step (Reach-kept dns run h)
