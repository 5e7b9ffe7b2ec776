-- ===== src/Cache/Exact.antt =====
-- GetAllRecords and DomainCount (cache.go) list and count what queries get, and nothing else.
use mathlib.Core.List.{Memᴰ}
use mathlib.Core.List.Memᴰ.{head, tail, not-nil}
use elchi_gslb.Prelude.{
  ℕ, ◌≡◌, refl, sym, subst, ◌∙◌, List, [], ◌∷◌, none, some, ◌↔◌, ◌==◌, list_eq, nat_eq, lookup,
  HasKeysOnce, Bool-cases, inl, inr, eqb_refl, list_eqb_iff, nat_eqb_iff, arith, Mem-append_cases,
}
use elchi_gslb.Text.{Text}
use elchi_gslb.Name.{normalize_domain}
use elchi_gslb.Name.Normal.{normalize_domain_of_IsCanonical}
use elchi_gslb.Record.{DnsRecord, Rr}
use elchi_gslb.Cache.Nested.{Table, QtypeMap}
use elchi_gslb.Cache.{RecordCache, get, listed, list_domain, list_table, get_all_records}
use elchi_gslb.Cache.Entries.{entry_lem}
use elchi_gslb.Cache.Keys.{IsKeyed}
use elchi_gslb.Cache.Listing.{get_all_records_complete}
use elchi_gslb.Cache.Replace.{get-eq-entry}
use elchi_gslb.Cache.Valid.{IsValid}

-- What is listed of a query type that the map has.
abbrev IsListedAt : Text → QtypeMap → DnsRecord → Type 0
IsListedAt d m x =
    (q : ℕ) × (rr : Rr) × (rrs : List Rr) × (lookup q m ≡ some (rr ∷ rrs))
    × (x ≡ listed d q (rr ∷ rrs))

pub lookup-first : (q : ℕ) (v : List Rr) (m : QtypeMap) → lookup q ((q, v) ∷ m) ≡ some v
unfolding lookup
lookup-first q v m = rw (eqb_refl q) refl

-- What a later key has, the map has, since the first key is not there.
pub later_key :
    (k q : ℕ) (v w : List Rr) (m : QtypeMap)
    → lookup k m ≡ none
    → lookup q m ≡ some w
    → lookup q ((k, v) ∷ m) ≡ some w
unfolding lookup
later_key k q v w m fresh found = ground (arith, fresh, found, nat_eqb_iff k q)

list_domain_only :
    (x : DnsRecord) (d : Text) (m : QtypeMap)
    → HasKeysOnce m
    → Memᴰ x (list_domain d m)
    → IsListedAt d m x
unfolding list_domain
list_domain_only x d [] once h = absurd (not-nil h)
list_domain_only x d ((k, []) ∷ m) (fresh, once) h =
    let (q, rr, rrs, found, same) = list_domain_only x d m once h in
    (q, rr, rrs, later_key k q [] (rr ∷ rrs) m fresh found, same)
list_domain_only x d ((k, rr ∷ rrs) ∷ m) (fresh, once) (head e) =
    (k, rr, rrs, lookup-first k (rr ∷ rrs) m, e)
list_domain_only x d ((k, r ∷ rs) ∷ m) (fresh, once) (tail h) =
    let (q, rr, rrs, found, same) = list_domain_only x d m once h in
    (q, rr, rrs, later_key k q (r ∷ rs) (rr ∷ rrs) m fresh found, same)

pub later_domain :
    (k d : Text) (n m : QtypeMap) (t : Table)
    → lookup k t ≡ none
    → lookup d t ≡ some m
    → lookup d ((k, n) ∷ t) ≡ some m
unfolding lookup
later_domain k d n m t fresh found = elim (Bool-cases (k == d)) [
  | inl same ↦ absurd (cc (fresh, found, (list_eqb_iff k d).0 same))
  | inr other ↦ rw other found
]

pub rest-IsKeyed : (k : Text) (n : QtypeMap) (t : Table) → IsKeyed ((k, n) ∷ t) → IsKeyed t
rest-IsKeyed k n t keyed = record {
  domains = keyed.domains.1;
  qtypes = λ d m found. keyed.qtypes d m (later_domain k d n m t keyed.domains.0 found);
}

list_table_only :
    (x : DnsRecord) (t : Table)
    → IsKeyed t
    → Memᴰ x (list_table t)
    → (d : Text) × (m : QtypeMap) × (lookup d t ≡ some m) × IsListedAt d m x
unfolding list_table lookup
list_table_only x [] keyed h = absurd (not-nil h)
list_table_only x ((k, n) ∷ t) keyed h =
    let first : lookup k ((k, n) ∷ t) ≡ some n = rw (eqb_refl k) refl in
    elim (Mem-append_cases x (list_domain k n) (list_table t) h) [
      | inl here ↦ (k, n, first, list_domain_only x k n (keyed.qtypes k n first) here)
      | inr later ↦
          let (d, m, found, listed_there) = list_table_only x t (rest-IsKeyed k n t keyed) later in
          (d, m, later_domain k d n m t keyed.domains.0 found, listed_there)
    ]

-- GetAllRecords lists nothing else than what queries get: the records it lists of a valid cache are
-- those of the answers that are not empty, one for each name and type.
pub get_all_records_iff :
    (c : RecordCache) (x : DnsRecord)
    → IsValid c
    → IsKeyed c.records
    → Memᴰ x (get_all_records c) ↔ (
        (d : Text) × (q : ℕ) × (rr : Rr) × (rrs : List Rr) × (get c d q ≡ rr ∷ rrs)
        × (x ≡ listed (normalize_domain d) q (rr ∷ rrs)))
unfolding get_all_records
get_all_records_iff c x valid keyed = (
  λ h.
      let (d, m, there, (q, rr, rrs, found, same)) = list_table_only x c.records keyed h in
      let spelled : normalize_domain d ≡ d =
        normalize_domain_of_IsCanonical d (valid.holds d m there).canonical in
      (
        d,
        q,
        rr,
        rrs,
        get-eq-entry c d q ∙ rw (spelled, entry_lem c.records d q, there, found) refl,
        rw spelled same,
      ),
  λ (d, q, rr, rrs, given, same).
      subst (λ (y : DnsRecord). Memᴰ y (get_all_records c)) (sym same)
        (get_all_records_complete c d q rr rrs given),
)
