-- ===== src/Cache/Invariant.antt =====
-- What every method of RecordCache (cache.go) keeps: each entry answers for the name and type under
-- which it stands.
use elchi_gslb.Prelude.{
  ℕ, ◌≡◌, false, List, [], ◌∷◌, Option, none, some, All, list_eq, nat_eq, Bool-cases, inl, inr,
}
use elchi_gslb.Text.{Text}
use elchi_gslb.Name.{normalize_domain, outside_zone}
use elchi_gslb.Name.Normal.{normalize_domain-IsCanonical}
use elchi_gslb.Record.{DnsRecord, DnsSnapshot, DeleteRecord}
use elchi_gslb.Record.Build.{Built, ok, err, build_dns_records}
use elchi_gslb.Record.Build.Laws.{built_type, OnOk, IsBuiltFrom, build-OnOk}
use elchi_gslb.Cache.Nested.{Table}
use elchi_gslb.Cache.{
  RecordCache, Loading, nothing_loaded, load_built, load_record, load_records,
  replace_from_snapshot, get, store_built, update_record, update_records, update, delete_qtype,
  remove_qtype, delete_record, delete_records, delete, new_record_cache,
}
use elchi_gslb.Prelude.{Everywhere-nil}
use elchi_gslb.Cache.Replace.{get-eq-entry}
use elchi_gslb.Cache.Valid.{
  Fits, Holds, TableHolds, IsValid, store-TableHolds, entry-Fits, append_at-TableHolds,
  remove-TableHolds, All-Fits,
}

module _ (zone : Text) (ttl : ℕ) where
  load_built-TableHolds :
      (r : DnsRecord) (b : Built) (l : Loading)
      → outside_zone zone (normalize_domain r.name) ≡ false
      → OnOk (IsBuiltFrom r ttl) b
      → TableHolds zone l.new_records
      → TableHolds zone (load_built (normalize_domain r.name) b l).new_records
  load_built-TableHolds r (err e) l within h holds = holds
  load_built-TableHolds r (ok []) l within h holds = holds
  load_built-TableHolds r (ok (rr ∷ rrs)) l within (h, hs) holds = rw h.rrtype (
      append_at-TableHolds zone (normalize_domain r.name) (built_type r) (rr ∷ rrs) l.new_records
        within (normalize_domain-IsCanonical r.name) (λ e. cc, All-Fits r ttl (rr ∷ rrs) (h, hs))
        holds)

  load_record-TableHolds :
      (r : DnsRecord) (l : Loading)
      → TableHolds zone l.new_records
      → TableHolds zone (load_record zone ttl r l).new_records
  unfolding load_record
  load_record-TableHolds r l holds =
      elim (Bool-cases (outside_zone zone (normalize_domain r.name))) [
        | inl out ↦ rw out holds
        | inr within ↦
            rw within
              (load_built-TableHolds r (build_dns_records r ttl) l within (build-OnOk r ttl) holds)
      ]

  load_records-TableHolds :
      (rs : List DnsRecord) (l : Loading)
      → TableHolds zone l.new_records
      → TableHolds zone (load_records zone ttl rs l).new_records
  unfolding load_records
  load_records-TableHolds [] l holds = holds
  load_records-TableHolds (r ∷ rs) l holds =
      load_records-TableHolds rs (load_record zone ttl r l) (load_record-TableHolds r l holds)

  store_built-TableHolds :
      (r : DnsRecord) (b : Built) (t : Table)
      → outside_zone zone (normalize_domain r.name) ≡ false
      → OnOk (IsBuiltFrom r ttl) b
      → TableHolds zone t
      → TableHolds zone (store_built (normalize_domain r.name) b t)
  store_built-TableHolds r (err e) t within h holds = holds
  store_built-TableHolds r (ok []) t within h holds = holds
  store_built-TableHolds r (ok (rr ∷ rrs)) t within (h, hs) holds = rw h.rrtype (
      store-TableHolds zone (normalize_domain r.name) (built_type r) (rr ∷ rrs) t within
        (normalize_domain-IsCanonical r.name) (λ e. cc, All-Fits r ttl (rr ∷ rrs) (h, hs)) holds)

  update_record-TableHolds :
      (r : DnsRecord) (t : Table) → TableHolds zone t → TableHolds zone (update_record zone ttl r t)
  unfolding update_record
  update_record-TableHolds r t holds =
      elim (Bool-cases (outside_zone zone (normalize_domain r.name))) [
        | inl out ↦ rw out holds
        | inr within ↦
            rw within
              (store_built-TableHolds r (build_dns_records r ttl) t within (build-OnOk r ttl) holds)
      ]

  update_records-TableHolds :
      (rs : List DnsRecord) (t : Table)
      → TableHolds zone t
      → TableHolds zone (update_records zone ttl rs t)
  unfolding update_records
  update_records-TableHolds [] t holds = holds
  update_records-TableHolds (r ∷ rs) t holds =
      update_records-TableHolds rs (update_record zone ttl r t) (update_record-TableHolds r t holds)

module _ (zone : Text) where
  remove_qtype-TableHolds :
      (domain : Text) (qtype : Option ℕ) (t : Table)
      → TableHolds zone t
      → TableHolds zone (remove_qtype domain qtype t)
  remove_qtype-TableHolds domain none t holds = holds
  remove_qtype-TableHolds domain (some qtype) t holds = remove-TableHolds zone domain qtype t holds

  delete_records-TableHolds :
      (deletes : List DeleteRecord) (t : Table)
      → TableHolds zone t
      → TableHolds zone (delete_records deletes t)
  unfolding delete_records delete_record
  delete_records-TableHolds [] t holds = holds
  delete_records-TableHolds (del ∷ deletes) t holds =
      delete_records-TableHolds deletes (delete_record del t)
        (remove_qtype-TableHolds (normalize_domain del.name) (delete_qtype del.type) t holds)

-- A new cache is valid.
pub new_record_cache-IsValid : (zone : Text) (gauge : ℕ) → IsValid (new_record_cache zone gauge)
unfolding new_record_cache
new_record_cache-IsValid zone gauge = record { holds = Everywhere-nil (Holds zone) }

module _ (c : RecordCache) (valid : IsValid c) where
  pub replace-IsValid :
      (s : Option DnsSnapshot) (ttl now : ℕ) → IsValid (replace_from_snapshot c s ttl now).0
  unfolding replace_from_snapshot
  replace-IsValid none ttl now = valid
  replace-IsValid (some s) ttl now = record {
    holds =
        load_records-TableHolds c.zone ttl s.records nothing_loaded (Everywhere-nil (Holds c.zone));
  }

  pub update-IsValid :
      (records : List DnsRecord) (ttl now : ℕ) → IsValid (update c records ttl now).0
  unfolding update
  update-IsValid [] ttl now = valid
  update-IsValid (r ∷ rs) ttl now = record {
    holds = update_records-TableHolds c.zone ttl (r ∷ rs) c.records valid.holds;
  }

  pub delete-IsValid : (deletes : List DeleteRecord) (now : ℕ) → IsValid (delete c deletes now).0
  unfolding delete
  delete-IsValid [] now = valid
  delete-IsValid (del ∷ deletes) now = record {
    holds = delete_records-TableHolds c.zone (del ∷ deletes) c.records valid.holds;
  }

  -- What a valid cache returns fits the query: the normalized name, the type asked for, in the header
  -- and in the data, and class INET.
  pub get-Fits : (qname : Text) (q : ℕ) → All (Fits (normalize_domain qname) q) (get c qname q)
  get-Fits qname q =
      rw get-eq-entry (entry-Fits c.zone (normalize_domain qname) q c.records valid.holds)

-- Loading a snapshot, updating and deleting keep a cache valid, whatever the records are.
pub methods-IsValid :
    (c : RecordCache) (s : Option DnsSnapshot) (records : List DnsRecord)
    (deletes : List DeleteRecord) (ttl now : ℕ)
    → IsValid c
    → IsValid (replace_from_snapshot c s ttl now).0
      × IsValid (update c records ttl now).0
      × IsValid (delete c deletes now).0
methods-IsValid c s records deletes ttl now valid = (
  replace-IsValid c valid s ttl now,
  update-IsValid c valid records ttl now,
  delete-IsValid c valid deletes now,
)
