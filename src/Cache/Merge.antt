-- ===== src/Cache/Merge.antt =====
-- Update and Delete (cache.go): what a query gets after them.
use elchi_gslb.Prelude.{
  ℕ, ◌≡◌, refl, ap, sym, ◌∙◌, ◌&&◌, List, [], ◌∷◌, ◌==◌, none, any, list_eq, nat_eq, list_eqb_iff,
  is_empty, if◌then◌else◌, arith, Bool-cases, inl, inr,
}
use elchi_gslb.Text.{Text, text, to_upper}
use elchi_gslb.Name.{normalize_domain, outside_zone}
use elchi_gslb.Record.{DnsRecord, DeleteRecord, type_a, type_aaaa, record_type_aaaa}
use elchi_gslb.Record.Build.{Built, ok, err, build_dns_records}
use elchi_gslb.Record.Build.Laws.{built_type, OnOk}
use elchi_gslb.Cache.Nested.{Table, entry}
use elchi_gslb.Cache.{
  RecordCache, get, store_built, update_record, update_records, update, delete_qtype, delete_record,
  delete_records, delete,
}
use elchi_gslb.Cache.Spec.{or_ok, contribution, overridden, names}
use elchi_gslb.Cache.Entries.{entry-store, entry-remove}
use elchi_gslb.Cache.Replace.{FiledAt, built-FiledAt, get-eq-entry}

module _ (d : Text) (q : ℕ) where
  entry-store_built :
      (domain : Text) (q₀ : ℕ) (b : Built) (t : Table)
      → OnOk (FiledAt q₀) b
      → entry (store_built domain b t) d q ≡ (
          let new = if domain == d && q₀ == q then or_ok b else [] in
          if is_empty new then entry t d q else new)
  entry-store_built domain q₀ (err e) t h = ground arith
  entry-store_built domain q₀ (ok []) t h = ground arith
  entry-store_built domain q₀ (ok (rr ∷ rrs)) t (h, hs) =
      rw h (ground (arith, entry-store domain q₀ (rr ∷ rrs) t d q))

  module _ (zone : Text) (ttl : ℕ) where
    entry-update_record :
        (r : DnsRecord) (t : Table)
        → entry (update_record zone ttl r t) d q
          ≡ (let new = contribution zone ttl d q r in if is_empty new then entry t d q else new)
    unfolding update_record contribution
    entry-update_record r t = elim (Bool-cases (outside_zone zone (normalize_domain r.name))) [
      | inl out ↦ rw out refl
      | inr within ↦ rw within (
          entry-store_built (normalize_domain r.name) (built_type r) (build_dns_records r ttl) t
            (built-FiledAt r ttl))
    ]

    entry-update_records :
        (rs : List DnsRecord) (t : Table)
        → entry (update_records zone ttl rs t) d q ≡ overridden zone ttl d q rs (entry t d q)
    unfolding update_records overridden
    entry-update_records [] t = refl
    entry-update_records (r ∷ rs) t =
        entry-update_records rs (update_record zone ttl r t)
        ∙ ap (overridden zone ttl d q rs) (entry-update_record r t)

  entry-delete_record :
      (del : DeleteRecord) (t : Table)
      → entry (delete_record del t) d q ≡ (if names d q del then [] else entry t d q)
  unfolding delete_record delete_qtype names
  entry-delete_record del t = ground (
    arith,
    entry-remove (normalize_domain del.name) type_a t d q,
    entry-remove (normalize_domain del.name) type_aaaa t d q,
    list_eqb_iff (to_upper del.type) (text "A"),
    list_eqb_iff (to_upper del.type) record_type_aaaa,
  )

  entry-delete_records :
      (deletes : List DeleteRecord) (t : Table)
      → entry (delete_records deletes t) d q ≡ (if any (names d q) deletes then [] else entry t d q)
  unfolding delete_records
  entry-delete_records [] t = refl
  entry-delete_records (del ∷ deletes) t =
      ground (arith, entry-delete_records deletes (delete_record del t), entry-delete_record del t)

module _ (c : RecordCache) where
  -- After an update, a query gets what the last record that contributes anything to its normalized
  -- name and type contributes, and what it got before where no record does. The version hash stays,
  -- and there is no error.
  pub get-update :
      (records : List DnsRecord) (ttl now : ℕ) (qname : Text) (q : ℕ)
      → (get (update c records ttl now).0 qname q
          ≡ overridden c.zone ttl (normalize_domain qname) q records (get c qname q))
        × ((update c records ttl now).0.version_hash ≡ c.version_hash)
        × ((update c records ttl now).1 ≡ none)
  unfolding update
  get-update [] ttl now qname q = (sym (unfold overridden in refl), refl, refl)
  get-update (r ∷ rs) ttl now qname q = (
    get-eq-entry (update c (r ∷ rs) ttl now).0 qname q
        ∙ entry-update_records (normalize_domain qname) q c.zone ttl (r ∷ rs) c.records
        ∙ ap (overridden c.zone ttl (normalize_domain qname) q (r ∷ rs))
            (sym (get-eq-entry c qname q)),
    refl,
    refl,
  )

  -- After a deletion, a query gets nothing if its normalized name and type are among those deleted,
  -- and otherwise what it got before. The version hash stays, and there is no error.
  pub get-delete :
      (deletes : List DeleteRecord) (now : ℕ) (qname : Text) (q : ℕ)
      → (get (delete c deletes now).0 qname q
          ≡ (if any (names (normalize_domain qname) q) deletes then [] else get c qname q))
        × ((delete c deletes now).0.version_hash ≡ c.version_hash)
        × ((delete c deletes now).1 ≡ none)
  unfolding delete
  get-delete [] now qname q = (refl, refl, refl)
  get-delete (del ∷ deletes) now qname q = (
    get-eq-entry (delete c (del ∷ deletes) now).0 qname q
        ∙ entry-delete_records (normalize_domain qname) q (del ∷ deletes) c.records
        ∙ rw (← get-eq-entry c qname q),
    refl,
    refl,
  )
