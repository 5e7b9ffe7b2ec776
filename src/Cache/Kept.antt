-- ===== src/Cache/Kept.antt =====
-- What the methods of RecordCache (cache.go) keep of the nested map because each of its writes does.
use elchi_gslb.Prelude.{ℕ, List, [], ◌∷◌, Option, none, some, list_eq, nat_eq, Bool-cases, inl, inr}
use elchi_gslb.Text.{Text}
use elchi_gslb.Name.{normalize_domain, outside_zone}
use elchi_gslb.Record.{DnsRecord, DnsSnapshot, DeleteRecord, Rr, header}
use elchi_gslb.Record.Build.{Built, ok, err, build_dns_records}
use elchi_gslb.Cache.Nested.{Table, store, remove}
use elchi_gslb.Cache.Entries.{append_at_lem}
use elchi_gslb.Cache.{
  RecordCache, Loading, nothing_loaded, load_built, load_record, load_records,
  replace_from_snapshot, store_built, update_record, update_records, update, delete_qtype,
  remove_qtype, delete_record, delete_records, delete,
}

-- A property of the map that holds when it is empty, and that each write keeps.
pub record IsWritten (P : Table → Type 0) : Type 0 where
  pub empty : P []
  pub stored : (d : Text) (q : ℕ) (rrs : List Rr) (t : Table) → P t → P (store d q rrs t)
  pub removed : (d : Text) (q : ℕ) (t : Table) → P t → P (remove d q t)

module _ (P : Table → Type 0) (w : IsWritten P) where
  load_built-written :
      (d : Text) (b : Built) (l : Loading) → P l.new_records → P (load_built d b l).new_records
  load_built-written d (err e) l h = h
  load_built-written d (ok []) l h = h
  load_built-written d (ok (rr ∷ rrs)) l h =
      rw (append_at_lem d (header rr).rrtype (rr ∷ rrs) l.new_records)
        (w.stored d (header rr).rrtype _ l.new_records h)

  load_records-written :
      (zone : Text) (ttl : ℕ) (rs : List DnsRecord) (l : Loading)
      → P l.new_records
      → P (load_records zone ttl rs l).new_records
  unfolding load_records load_record
  load_records-written zone ttl [] l h = h
  load_records-written zone ttl (r ∷ rs) l h =
      load_records-written zone ttl rs (load_record zone ttl r l)
        (elim (Bool-cases (outside_zone zone (normalize_domain r.name))) [
          | inl out ↦ rw out h
          | inr within ↦
              rw within (load_built-written (normalize_domain r.name) (build_dns_records r ttl) l h)
        ])

  store_built-written : (d : Text) (b : Built) (t : Table) → P t → P (store_built d b t)
  store_built-written d (err e) t h = h
  store_built-written d (ok []) t h = h
  store_built-written d (ok (rr ∷ rrs)) t h = w.stored d (header rr).rrtype (rr ∷ rrs) t h

  update_records-written :
      (zone : Text) (ttl : ℕ) (rs : List DnsRecord) (t : Table)
      → P t
      → P (update_records zone ttl rs t)
  unfolding update_records update_record
  update_records-written zone ttl [] t h = h
  update_records-written zone ttl (r ∷ rs) t h =
      update_records-written zone ttl rs (update_record zone ttl r t)
        (elim (Bool-cases (outside_zone zone (normalize_domain r.name))) [
          | inl out ↦ rw out h
          | inr within ↦
              rw within
                (store_built-written (normalize_domain r.name) (build_dns_records r ttl) t h)
        ])

  remove_qtype-written : (d : Text) (q : Option ℕ) (t : Table) → P t → P (remove_qtype d q t)
  remove_qtype-written d none t h = h
  remove_qtype-written d (some q) t h = w.removed d q t h

  delete_records-written : (dels : List DeleteRecord) (t : Table) → P t → P (delete_records dels t)
  unfolding delete_records delete_record
  delete_records-written [] t h = h
  delete_records-written (del ∷ dels) t h =
      delete_records-written dels (delete_record del t)
        (remove_qtype-written (normalize_domain del.name) (delete_qtype del.type) t h)

  module _ (c : RecordCache) where
    pub replace-written :
        (s : DnsSnapshot) (ttl now : ℕ) → P (replace_from_snapshot c (some s) ttl now).0.records
    unfolding replace_from_snapshot
    replace-written s ttl now = load_records-written c.zone ttl s.records nothing_loaded w.empty

    pub update-written :
        (rs : List DnsRecord) (ttl now : ℕ) → P c.records → P (update c rs ttl now).0.records
    unfolding update
    update-written [] ttl now h = h
    update-written (r ∷ rs) ttl now h = update_records-written c.zone ttl (r ∷ rs) c.records h

    pub delete-written :
        (dels : List DeleteRecord) (now : ℕ) → P c.records → P (delete c dels now).0.records
    unfolding delete
    delete-written [] now h = h
    delete-written (del ∷ dels) now h = delete_records-written (del ∷ dels) c.records h
