-- ===== src/Process/Answers.antt =====
-- What queries get, by the writes of the goroutines alone (elchi.go, webhook.go, cache.go).
use mathlib.Core.Quot
use mathlib.Core.Quot.{Quot}
use elchi_gslb.Prelude.{
  lookup, ℕ, ◌≡◌, refl, ap, ◌∙◌, List, [], ◌∷◌, any, list_eq, nat_eq, if◌then◌else◌,
}
use elchi_gslb.Text.{Text}
use elchi_gslb.Name.{normalize_domain}
use elchi_gslb.Record.{Rr}
use elchi_gslb.Cache.{get, new_record_cache}
use elchi_gslb.Cache.Merge.{get-update, get-delete}
use elchi_gslb.Cache.Replace.{get-replace_from_snapshot}
use elchi_gslb.Cache.Spec.{contributions, overridden, names}
use elchi_gslb.Cache.View.{
  View, view, view_zone, view_get, rrs-set, text-set, view_update, view_delete, view_load,
  update-zone, delete-zone, replace-zone,
}
use elchi_gslb.Plugin.{Config, Metrics}
use elchi_gslb.Serve.{Dns}
use elchi_gslb.Sync.{fresh_elchi}
use elchi_gslb.Process.{Process, begin, Reach}
use elchi_gslb.Process.Writes.{Write, load, merge, drop, apply_write, history}
use elchi_gslb.Process.History.{writes, Reach-history}

-- What one write makes of what a query gets: a snapshot decides by its records, a list of records
-- overrides what was there, and a list of deletions takes away what it names.
abbrev pub next_answer : Text → Text → ℕ → Write → List Rr → List Rr
next_answer zone d q (load s ttl) old = contributions zone ttl d q s.records
next_answer zone d q (merge records ttl) old = overridden zone ttl d q records old
next_answer zone d q (drop dels) old = if any (names d q) dels then [] else old

-- What a query gets after some writes, the last one first.
abbrev pub answer_of : Text → Text → ℕ → List Write → List Rr
answer_of zone d q [] = []
answer_of zone d q (w ∷ ws) = next_answer zone d q w (answer_of zone d q ws)

view_zone-apply_write : (w : Write) (v : View) → view_zone (apply_write w v) ≡ view_zone v
unfolding view_zone view_update view_delete view_load
view_zone-apply_write (load s ttl) = Quot.ind (λ v. text-set _ _) (λ c. replace-zone c s ttl 0)
view_zone-apply_write (merge records ttl) =
    Quot.ind (λ v. text-set _ _) (λ c. update-zone c records ttl 0)
view_zone-apply_write (drop dels) = Quot.ind (λ v. text-set _ _) (λ c. delete-zone c dels 0)

module _ (qname : Text) (q : ℕ) where
  view_get-apply_write :
      (w : Write) (v : View)
      → view_get qname q (apply_write w v)
        ≡ next_answer (view_zone v) (normalize_domain qname) q w (view_get qname q v)
  unfolding view_get view_zone view_update view_delete view_load
  view_get-apply_write (load s ttl) =
      Quot.ind (λ v. rrs-set _ _) (λ c. (get-replace_from_snapshot c s ttl 0 qname q).0)
  view_get-apply_write (merge records ttl) =
      Quot.ind (λ v. rrs-set _ _) (λ c. (get-update c records ttl 0 qname q).0)
  view_get-apply_write (drop dels) =
      Quot.ind (λ v. rrs-set _ _) (λ c. (get-delete c dels 0 qname q).0)

  module _ (zone : Text) (v : View) (zoned : view_zone v ≡ zone)
      (empty : view_get qname q v ≡ []) where
    history-zone : (ws : List Write) → view_zone (history ws v) ≡ zone
    history-zone [] = zoned
    history-zone (w ∷ ws) = view_zone-apply_write w (history ws v) ∙ history-zone ws

    history-answer :
        (ws : List Write)
        → view_get qname q (history ws v) ≡ answer_of zone (normalize_domain qname) q ws
    history-answer [] = empty
    history-answer (w ∷ ws) =
        view_get-apply_write w (history ws v) ∙ rw (history-zone ws, history-answer ws) refl

nothing_new :
    (config : Config) (metrics : Metrics) (gauge : ℕ) (qname : Text) (q : ℕ)
    → (view_zone (view (begin config metrics gauge).elchi.cache) ≡ config.zone)
      × (view_get qname q (view (begin config metrics gauge).elchi.cache) ≡ [])
unfolding view_zone view_get fresh_elchi new_record_cache get lookup
nothing_new config metrics gauge qname q = (refl, refl)

-- Whatever the goroutines do from the start of InitClient on, a query gets what the records of their
-- writes say, with no cache in sight: those of the last snapshot that reached the cache, changed by each
-- list of records and of deletions that reached it since, in their order.
pub Reach-answers :
    (dns : Dns) (config : Config) (metrics : Metrics) (gauge : ℕ) (p : Process)
    (run : Reach dns (begin config metrics gauge) p) (qname : Text) (q : ℕ)
    → get p.elchi.cache qname q ≡ answer_of config.zone (normalize_domain qname) q (writes dns run)
Reach-answers dns config metrics gauge p run qname q =
    let start : View = view (begin config metrics gauge).elchi.cache in
    let (zoned, empty) = nothing_new config metrics gauge qname q in
    let seen : get p.elchi.cache qname q ≡ view_get qname q (history (writes dns run) start) =
      unfold view_get in ap (view_get qname q) (Reach-history dns run) in
    seen ∙ history-answer qname q config.zone start zoned empty (writes dns run)
