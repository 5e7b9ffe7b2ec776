-- ===== src/Process/History.antt =====
-- What the goroutines of the plugin (elchi.go, webhook.go) write to the cache, as one sequence of writes.
use elchi_gslb.Prelude.{◌≡◌, refl, sym, ap, ◌∙◌, List, [], ◌∷◌, ◌++◌, list_eq, nat_eq}
use elchi_gslb.Cache.View.{View, view}
use elchi_gslb.Client.{fetch_snapshot}
use elchi_gslb.Serve.{Dns}
use elchi_gslb.Serve.Between.{serve_dns_between_cases}
use elchi_gslb.Webhook.Notify.{updates_lem, deletes_lem}
use elchi_gslb.Process.{
  Process, Step, loads, ticks, asks, answered, returns, arrives, merges, deletes, handles, looks_up,
  serves, shuts_down, shutdown, Reach, here, next,
}
use elchi_gslb.Process.Writes.{
  Write, merge, drop, apply_write, history, load_if, fetched, given, merge-view, drop-view,
  initial-view, sync-view, refused-view,
}

module _ (dns : Dns) where
  -- What a step writes.
  abbrev writes_of : {p p' : Process} → Step dns p p' → List Write
  writes_of {p} (loads net now _) =
      load_if (fetched (fetch_snapshot p.elchi.client net)) p.elchi.ttl
  writes_of (ticks _) = []
  writes_of (asks start _ _) = []
  writes_of {p} (answered net before start now _) = load_if (given net before) p.elchi.ttl
  writes_of (returns _ _) = []
  writes_of (arrives endpoint r _) = []
  writes_of {p} (merges before after r req now _ _) = merge req.records p.elchi.ttl ∷ []
  writes_of (deletes before after dels now _) = drop dels ∷ []
  writes_of (handles before after endpoint r now _ _) = []
  writes_of (looks_up q _) = []
  writes_of (serves before after q first _) = []
  writes_of (shuts_down _) = []

  abbrev pub writes : {p₀ p : Process} → Reach dns p₀ p → List Write
  writes here = []
  writes (next run step) = writes_of step ++ writes run

  Step-view :
      {p p' : Process} (step : Step dns p p')
      → view p'.elchi.cache ≡ history (writes_of step) (view p.elchi.cache)
  Step-view {p} (loads net now _) =
      initial-view net now now p.elchi (fetch_snapshot p.elchi.client net)
  Step-view (ticks _) = refl
  Step-view (asks start _ _) = refl
  Step-view {p} (answered net before start now _) = sync-view net start now p.elchi before
  Step-view (returns _ _) = refl
  Step-view (arrives endpoint r _) = refl
  Step-view {p} (merges before after r req now _ _) =
      rw (updates_lem now p.elchi req.records)
        (merge-view p.elchi.cache req.records p.elchi.ttl now)
  Step-view {p} (deletes before after dels now _) =
      rw (deletes_lem now p.elchi dels) (drop-view p.elchi.cache dels now)
  Step-view {p} (handles before after endpoint r now _ other) =
      ap view (refused-view now p.elchi endpoint r other)
  Step-view (looks_up q _) = refl
  Step-view {p} (serves before after q first _) =
      ap view (serve_dns_between_cases dns p.elchi.cache (record p.elchi { cache = first }) q).1
  Step-view (shuts_down _) = unfold shutdown in refl

  history-append :
      (ws ws' : List Write) (v : View) → history (ws ++ ws') v ≡ history ws (history ws' v)
  history-append [] ws' v = refl
  history-append (w ∷ ws) ws' v = ap (apply_write w) (history-append ws ws' v)

  -- Whatever the goroutines do, the view of the cache is that of their writes, one whole write after
  -- another: each snapshot that a fetch or a sync gave, each list of records and each list of
  -- deletions of an accepted notification, in the order in which they reached the cache.
  pub Reach-history :
      {p₀ p : Process} (run : Reach dns p₀ p)
      → view p.elchi.cache ≡ history (writes run) (view p₀.elchi.cache)
  Reach-history here = refl
  Reach-history {p₀} (next run step) =
      Step-view step
      ∙ ap (history (writes_of step)) (Reach-history run)
      ∙ sym (history-append (writes_of step) (writes run) (view p₀.elchi.cache))
