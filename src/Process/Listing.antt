-- ===== src/Process/Listing.antt =====
-- What the cache shows of itself (GetAllRecords, DomainCount in cache.go) in every state of the plugin.
use mathlib.Core.List.{Memᴰ}
use elchi_gslb.Prelude.{ℕ, ◌≡◌, List, ◌↔◌, Once, length, list_eq, nat_eq}
use elchi_gslb.Text.{Text}
use elchi_gslb.Cache.{get_all_records, domain_count}
use elchi_gslb.Cache.Domains.{IsAnswered, domain_count_exact}
use elchi_gslb.Cache.Index.{Key}
use elchi_gslb.Cache.Listed.{Lists, IsAnsweredAt, get_all_records-Lists}
use elchi_gslb.Cache.Keys.{IsKeyed, IsKeyed-nil, IsKeyed-IsWritten}
use elchi_gslb.Cache.Kept.{replace-written, update-written, delete-written}
use elchi_gslb.Plugin.{Config, Metrics}
use elchi_gslb.Serve.{Dns}
use elchi_gslb.Sync.{fresh_elchi}
use elchi_gslb.Process.{Process, begin, Reach}
use elchi_gslb.Process.Kept.{IsKept, Reach-kept}
use elchi_gslb.Process.Safety.{Reach-IsSafe, begin-IsSafe}

IsKeyed-IsKept : IsKept (λ c. IsKeyed c.records)
IsKeyed-IsKept = record {
  replaced = λ c s ttl now _ _. replace-written IsKeyed IsKeyed-IsWritten c s ttl now;
  updated = λ c records ttl now h. update-written IsKeyed IsKeyed-IsWritten c records ttl now h;
  deleted = λ c dels now h. delete-written IsKeyed IsKeyed-IsWritten c dels now h;
}

module _ (dns : Dns) (config : Config) (metrics : Metrics) (gauge : ℕ) (p : Process)
    (run : Reach dns (begin config metrics gauge) p) where
  Reach-IsKeyed : IsKeyed p.elchi.cache.records
  Reach-IsKeyed =
      Reach-kept (λ c. IsKeyed c.records) IsKeyed-IsKept dns run (unfold fresh_elchi in IsKeyed-nil)

  -- In every state of the plugin, GetAllRecords lists exactly what queries get. There is a list of
  -- names and query types in which none stands twice, and which has exactly those, with the name in its
  -- normal form, that a query gets something for; and the records listed are one for each of them, in
  -- that order: with the name less its dot, the type A or AAAA, or none for CNAME, the texts of the
  -- addresses in the order of the answer, the TTL of its last resource record, and no failover.
  pub Reach-Lists :
      (ks : List Key) × Lists p.elchi.cache ks (get_all_records p.elchi.cache)
      × Once ks
      × ((d : Text) (q : ℕ) → Memᴰ (d, q) ks ↔ IsAnsweredAt p.elchi.cache d q)
  Reach-Lists =
      get_all_records-Lists p.elchi.cache
        (Reach-IsSafe dns run (begin-IsSafe config metrics gauge)).valid Reach-IsKeyed

  -- In every state of the plugin, DomainCount is the length of a list of names in which none stands
  -- twice, and which has exactly the normalized names that some query gets an answer for.
  pub Reach-domain_count :
      (ds : List Text) × (length ds ≡ domain_count p.elchi.cache)
      × Once ds
      × ((d : Text) → Memᴰ d ds ↔ IsAnswered p.elchi.cache d)
  Reach-domain_count =
      domain_count_exact p.elchi.cache
        (Reach-IsSafe dns run (begin-IsSafe config metrics gauge)).valid Reach-IsKeyed
