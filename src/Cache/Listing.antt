-- ===== src/Cache/Listing.antt =====
-- What GetAllRecords (cache.go) lists of what queries get.
use mathlib.Core.List.{Memᴰ}
use mathlib.Core.List.Memᴰ.{head, tail}
use elchi_gslb.Prelude.{
  ℕ, ◌≡◌, ◌∙◌, refl, sym, ap, subst, List, [], ◌∷◌, none, some, ◌==◌, list_eq, nat_eq, nat_eqb_iff,
  list_eqb_iff, inl, inr, Bool-cases, Option-cases, lookup, All, is_empty, Mem-append_left,
  Mem-append_right,
}
use elchi_gslb.Text.{Text, trim_suffix}
use elchi_gslb.Name.{normalize_domain, dot}
use elchi_gslb.Record.{DnsRecord, Rr, type_cname}
use elchi_gslb.Cache.Nested.{Table, QtypeMap, entry}
use elchi_gslb.Cache.{
  RecordCache, get, listed, listed_ips, last_ttl, list_domain, list_table, get_all_records,
}
use elchi_gslb.Cache.Entries.{entry_lem}
use elchi_gslb.Cache.Replace.{get-eq-entry}
use elchi_gslb.Cache.Invariant.{get-Fits}
use elchi_gslb.Cache.Valid.{IsValid, Fits}

list_domain-Mem :
    (d : Text) (q : ℕ) (rr : Rr) (rrs : List Rr) (m : QtypeMap)
    → lookup q m ≡ some (rr ∷ rrs)
    → Memᴰ (listed d q (rr ∷ rrs)) (list_domain d m)
unfolding list_domain lookup
list_domain-Mem d q rr rrs [] found = absurd (cc found)
list_domain-Mem d q rr rrs ((k, v) ∷ m) found = elim (Bool-cases (k == q)) [
  | inl same ↦
      let key : k ≡ q = (nat_eqb_iff k q).0 same in
      let value : v ≡ rr ∷ rrs = cc (rw same at found) in rw (value, key) (head refl)
  | inr other ↦
      let later : Memᴰ (listed d q (rr ∷ rrs)) (list_domain d m) =
        list_domain-Mem d q rr rrs m (rw other at found) in
      elim (Bool-cases (is_empty v)) [
        | inl none_there ↦ rw none_there later
        | inr some_there ↦ rw some_there (tail later)
      ]
]

list_table-Mem :
    (x : DnsRecord) (d : Text) (m : QtypeMap) (t : Table)
    → lookup d t ≡ some m
    → Memᴰ x (list_domain d m)
    → Memᴰ x (list_table t)
unfolding list_table lookup
list_table-Mem x d m [] found h = absurd (cc found)
list_table-Mem x d m ((k, v) ∷ t) found h = elim (Bool-cases (k == d)) [
  | inl same ↦
      let key : k ≡ d = (list_eqb_iff k d).0 same in
      let value : v ≡ m = cc (rw same at found) in
      Mem-append_left x (list_domain k v) (list_table t) (rw (key, value) h)
  | inr other ↦
      Mem-append_right x (list_domain k v) (list_table t)
        (list_table-Mem x d m t (rw other at found) h)
]

lookup_nil : (q : ℕ) → lookup {V = List Rr} q [] ≡ none
unfolding lookup
lookup_nil q = refl

entry-Mem :
    (d : Text) (q : ℕ) (rr : Rr) (rrs : List Rr) (t : Table)
    → entry t d q ≡ rr ∷ rrs
    → Memᴰ (listed d q (rr ∷ rrs)) (list_table t)
entry-Mem d q rr rrs t h = elim (Option-cases (lookup d t)) [
  | inl missing ↦ absurd (cc (rw (entry_lem t d q, missing, lookup_nil) at h))
  | inr (m, there) ↦ elim (Option-cases (lookup q m)) [
    | inl missing ↦ absurd (cc (rw (entry_lem t d q, there, missing) at h))
    | inr (v, found) ↦
        let value : v ≡ rr ∷ rrs = cc (rw (entry_lem t d q, there, found) at h) in
        list_table-Mem (listed d q (rr ∷ rrs)) d m t there
          (list_domain-Mem d q rr rrs m (found ∙ ap (λ (w : List Rr). some w) value))
  ]
]

-- Whatever a query gets, GetAllRecords lists as one record, with the normalized name less its dot, the
-- name of its type if that is A or AAAA, the addresses in order, and the last one's TTL.
pub get_all_records_complete :
    (c : RecordCache) (qname : Text) (q : ℕ) (rr : Rr) (rrs : List Rr)
    → get c qname q ≡ rr ∷ rrs
    → Memᴰ (listed (normalize_domain qname) q (rr ∷ rrs)) (get_all_records c)
unfolding get_all_records
get_all_records_complete c qname q rr rrs h =
    entry-Mem (normalize_domain qname) q rr rrs c.records (sym (get-eq-entry c qname q) ∙ h)

pub listed_ips-cname :
    (d : Text) (rrs : List Rr) → All (Fits d type_cname) rrs → listed_ips rrs ≡ []
unfolding listed_ips
listed_ips-cname d [] h = refl
listed_ips-cname d (Rr.a x ip ∷ rrs) (fits, h) = absurd (cc fits.kind)
listed_ips-cname d (Rr.aaaa x ip ∷ rrs) (fits, h) = absurd (cc fits.kind)
listed_ips-cname d (Rr.cname x target ∷ rrs) (fits, h) = listed_ips-cname d rrs h

-- A name in failover, whose CNAME queries get, is listed by a valid cache with no type, no address and
-- no failover target.
pub get_all_records_failover :
    (c : RecordCache) (qname : Text) (rr : Rr) (rrs : List Rr)
    → IsValid c
    → get c qname type_cname ≡ rr ∷ rrs
    → Memᴰ
        (record {
          name = trim_suffix (normalize_domain qname) dot;
          type = [];
          ttl = last_ttl 0 (rr ∷ rrs);
          ips = [];
          failover = [];
        })
        (get_all_records c)
get_all_records_failover c qname rr rrs valid h =
    let fits : All (Fits (normalize_domain qname) type_cname) (rr ∷ rrs) =
      subst (All (Fits (normalize_domain qname) type_cname)) h
        (get-Fits c valid qname type_cname) in
    rw (← listed_ips-cname (normalize_domain qname) (rr ∷ rrs) fits)
      (unfold listed in get_all_records_complete c qname type_cname rr rrs h)
