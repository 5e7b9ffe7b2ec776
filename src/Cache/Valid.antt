-- ===== src/Cache/Valid.antt =====
-- When a cache is valid, and that the writes to its map (cache.go) keep it so.
use elchi_gslb.Prelude.{
  ℕ, ◌≡◌, ◌≢◌, refl, false, List, [], ◌∷◌, ◌++◌, All, list_eq, nat_eq, is_empty, is_empty_iff,
  Bool-cases, Option-cases, inl, inr, lookup, insert, delete as delete_key,
}
use elchi_gslb.Text.{Text}
use elchi_gslb.Name.{normalize_domain, outside_zone}
use elchi_gslb.Name.Normal.{IsCanonical}
use elchi_gslb.Record.{DnsRecord, Rr, header, class_inet}
use elchi_gslb.Record.Build.Laws.{built_type, kind, IsBuiltFrom}
use elchi_gslb.Cache.Nested.{Table, QtypeMap, or_empty, entry, store, append_at, remove}
use elchi_gslb.Cache.{RecordCache}
use elchi_gslb.Prelude.{
  Everywhere, Everywhere-insert, Everywhere-delete, Everywhere-nil, insert-ne-nil,
}
use elchi_gslb.Prelude.{All-append}
use elchi_gslb.Cache.Entries.{entry_lem, append_at_lem, remove_lem, remove_absent}

-- A resource record that can stand at a domain and query type.
pub record Fits (domain : Text) (qtype : ℕ) (rr : Rr) : Type 0 where
  pub name : (header rr).name ≡ domain
  pub rrtype : (header rr).rrtype ≡ qtype
  pub kind : kind rr ≡ qtype
  pub class : (header rr).class ≡ class_inet

-- What stands at a query type of a domain: some records, all of which fit.
abbrev pub IsFilled : Text → ℕ → List Rr → Type 0
IsFilled domain qtype rrs = (rrs ≢ []) × All (Fits domain qtype) rrs

pub record Holds (zone domain : Text) (m : QtypeMap) : Type 0 where
  pub inside : outside_zone zone domain ≡ false
  pub canonical : IsCanonical domain
  pub filled : m ≢ []
  pub entries : Everywhere (IsFilled domain) m

abbrev pub TableHolds : Text → Table → Type 0
TableHolds zone t = Everywhere (Holds zone) t

-- Every domain is canonical and in the zone, has some query type, and holds under each type some
-- resource records, all of that name, type and class.
pub record IsValid (c : RecordCache) : Type 0 where
  pub holds : TableHolds c.zone c.records

module _ (zone : Text) where
  inner-entries :
      (d : Text) (t : Table) → TableHolds zone t → Everywhere (IsFilled d) (or_empty (lookup d t))
  inner-entries d t h = elim (Option-cases (lookup d t)) [
    | inl missing ↦ rw missing (Everywhere-nil (IsFilled d))
    | inr (m, found) ↦ rw found (h d m found).entries
  ]

  pub store-TableHolds :
      (d : Text) (q : ℕ) (rrs : List Rr) (t : Table)
      → outside_zone zone d ≡ false
      → IsCanonical d
      → IsFilled d q rrs
      → TableHolds zone t
      → TableHolds zone (store d q rrs t)
  unfolding store
  store-TableHolds d q rrs t within canonical filled h =
      Everywhere-insert (Holds zone) d (insert q rrs (or_empty (lookup d t))) t
        (record {
          inside = within;
          canonical = canonical;
          filled = insert-ne-nil q rrs (or_empty (lookup d t));
          entries =
              Everywhere-insert (IsFilled d) q rrs (or_empty (lookup d t)) filled
                (inner-entries d t h);
        })
        h

  pub entry-Fits : (d : Text) (q : ℕ) (t : Table) → TableHolds zone t → All (Fits d q) (entry t d q)
  entry-Fits d q t h = rw entry_lem (elim (Option-cases (lookup q (or_empty (lookup d t)))) [
    | inl missing ↦ rw missing tt
    | inr (rrs, found) ↦ rw found (inner-entries d t h q rrs found).1
  ])

  pub append_at-TableHolds :
      (d : Text) (q : ℕ) (rrs : List Rr) (t : Table)
      → outside_zone zone d ≡ false
      → IsCanonical d
      → IsFilled d q rrs
      → TableHolds zone t
      → TableHolds zone (append_at d q rrs t)
  append_at-TableHolds d q [] t within canonical filled h = absurd (filled.0 refl)
  append_at-TableHolds d q (rr ∷ rrs) t within canonical filled h = rw append_at_lem (
      store-TableHolds d q (entry t d q ++ rr ∷ rrs) t within canonical
        (
          append-ne-nil (entry t d q),
          All-append (Fits d q) (entry t d q) (rr ∷ rrs) (entry-Fits d q t h) filled.1,
        )
        h)
    where
      append-ne-nil : (xs : List Rr) → xs ++ rr ∷ rrs ≢ []
      append-ne-nil [] e = cc
      append-ne-nil (x ∷ xs) e = cc

  pub remove-TableHolds :
      (d : Text) (q : ℕ) (t : Table) → TableHolds zone t → TableHolds zone (remove d q t)
  remove-TableHolds d q t h = elim (Option-cases (lookup d t)) [
    | inl missing ↦ rw (remove_absent d q t missing) h
    | inr (m, found) ↦
        rw (remove_lem d q t m found) (elim (Bool-cases (is_empty (delete_key q m))) [
          | inl gone ↦ rw gone (Everywhere-delete (Holds zone) d t h)
          | inr left ↦ rw left (
              Everywhere-insert (Holds zone) d (delete_key q m) t
                (record {
                  inside = (h d m found).inside;
                  canonical = (h d m found).canonical;
                  filled = λ e. cc ((is_empty_iff (delete_key q m)).1 e);
                  entries = Everywhere-delete (IsFilled d) q m (h d m found).entries;
                })
                h)
        ])
  ]

pub All-Fits :
    (r : DnsRecord) (ttl : ℕ) (rrs : List Rr)
    → All (IsBuiltFrom r ttl) rrs
    → All (Fits (normalize_domain r.name) (built_type r)) rrs
All-Fits r ttl [] h = tt
All-Fits r ttl (rr ∷ rrs) (h, hs) = (
  record { name = h.name; rrtype = h.rrtype; kind = h.kind; class = h.class },
  All-Fits r ttl rrs hs,
)
