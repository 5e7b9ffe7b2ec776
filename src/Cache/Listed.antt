-- ===== src/Cache/Listed.antt =====
-- GetAllRecords (cache.go), record by record, against what queries get.
use mathlib.Core.List.{Memᴰ}
use mathlib.Core.List.Memᴰ.{head, tail, not-nil}
use elchi_gslb.Prelude.{
  ℕ, ◌≡◌, ◌≢◌, refl, ap, sym, ◌∙◌, List, [], ◌∷◌, ◌++◌, some, ◌⊎◌, ◌↔◌, list_eq, nat_eq, lookup,
  HasKeysOnce, Option-cases, inl, inr, eqb_refl, Once,
}
use elchi_gslb.Text.{Text, text}
use elchi_gslb.Text.Suffix.{has_suffix_iff}
use elchi_gslb.Ip.{Ip, ip_string}
use elchi_gslb.Name.{normalize_domain, dot}
use elchi_gslb.Name.Normal.{IsCanonical, normalize_domain_of_IsCanonical}
use elchi_gslb.Record.{DnsRecord, Rr, RrHeader, header, type_a, type_aaaa, type_cname}
use elchi_gslb.Record.Build.Laws.{kind}
use elchi_gslb.Cache.Nested.{Table, QtypeMap}
use elchi_gslb.Cache.{
  RecordCache, get, listed, listed_ips, last_ttl, list_domain, list_table, get_all_records,
}
use elchi_gslb.Cache.Entries.{entry_lem, lookup-nil}
use elchi_gslb.Cache.Exact.{later_key, later_domain, lookup-first, rest-IsKeyed}
use elchi_gslb.Cache.Index.{Key, domain_keys, table_keys, lookup-table_keys, table_keys-Once}
use elchi_gslb.Cache.Keys.{IsKeyed}
use elchi_gslb.Cache.Relist.{trim_suffix-dot}
use elchi_gslb.Cache.Replace.{get-eq-entry}
use elchi_gslb.Cache.Valid.{IsValid, Fits}

-- The texts of the addresses among resource records, in order.
pub data Texts : List Rr → List Text → Type 0 where
  nothing : Texts [] []
  ipv4 :
      (h : RrHeader) (ip : Ip) (rrs : List Rr) (ts : List Text)
      → Texts rrs ts
      → Texts (Rr.a h ip ∷ rrs) (ip_string ip ∷ ts)
  ipv6 :
      (h : RrHeader) (ip : Ip) (rrs : List Rr) (ts : List Text)
      → Texts rrs ts
      → Texts (Rr.aaaa h ip ∷ rrs) (ip_string ip ∷ ts)
  target :
      (h : RrHeader) (name : Text) (rrs : List Rr) (ts : List Text)
      → Texts rrs ts
      → Texts (Rr.cname h name ∷ rrs) ts

-- The TTL of the last resource record.
abbrev pub IsLastTtl : List Rr → ℕ → Type 0
IsLastTtl rrs ttl =
    (before : List Rr) × (rr : Rr) × (rrs ≡ before ++ (rr ∷ [])) × ((header rr).ttl ≡ ttl)

-- The record that an answer for a name and a query type is listed as: the name has lost its dot, the
-- type is named except for CNAME, and the target of a CNAME is not shown.
pub record IsListing (d : Text) (q : ℕ) (rrs : List Rr) (x : DnsRecord) : Type 0 where
  pub name : x.name ++ dot ≡ d
  pub type :
      ((q ≡ type_a) × (x.type ≡ text "A"))
      ⊎ (((q ≡ type_aaaa) × (x.type ≡ text "AAAA")) ⊎ ((q ≡ type_cname) × (x.type ≡ [])))
  pub ttl : IsLastTtl rrs x.ttl
  pub ips : Texts rrs x.ips
  pub failover : x.failover ≡ []

-- A list of records that lists what queries get for some names and types, one for each and in their
-- order.
pub data Lists (c : RecordCache) : List Key → List DnsRecord → Type 0 where
  empty : Lists c [] []
  also :
      (d : Text) (q : ℕ) (rr : Rr) (rrs : List Rr) (x : DnsRecord) (ks : List Key)
      (xs : List DnsRecord)
      → normalize_domain d ≡ d
      → get c d q ≡ rr ∷ rrs
      → IsListing d q (rr ∷ rrs) x
      → Lists c ks xs
      → Lists c ((d, q) ∷ ks) (x ∷ xs)

listed_ips-Texts : (rrs : List Rr) → Texts rrs (listed_ips rrs)
unfolding listed_ips
listed_ips-Texts [] = nothing
listed_ips-Texts (Rr.a h ip ∷ rrs) = ipv4 h ip rrs (listed_ips rrs) (listed_ips-Texts rrs)
listed_ips-Texts (Rr.aaaa h ip ∷ rrs) = ipv6 h ip rrs (listed_ips rrs) (listed_ips-Texts rrs)
listed_ips-Texts (Rr.cname h name ∷ rrs) = target h name rrs (listed_ips rrs) (listed_ips-Texts rrs)

last_ttl-IsLastTtl :
    (first : ℕ) (rr : Rr) (rrs : List Rr) → IsLastTtl (rr ∷ rrs) (last_ttl first (rr ∷ rrs))
unfolding last_ttl
last_ttl-IsLastTtl first rr [] = ([], rr, refl, refl)
last_ttl-IsLastTtl first rr (next ∷ rrs) =
    let (before, last, same, ttl) = last_ttl-IsLastTtl (header rr).ttl next rrs in
    (rr ∷ before, last, ap (λ (l : List Rr). rr ∷ l) same, ttl)

listed-name : (d : Text) (q : ℕ) (rrs : List Rr) → IsCanonical d → (listed d q rrs).name ++ dot ≡ d
unfolding listed
listed-name d q rrs canonical =
    let (p, same) = (has_suffix_iff d dot).0 canonical.rooted in
    rw same (ap (λ (n : Text). n ++ dot) (trim_suffix-dot p))

listed-type :
    (d : Text) (q : ℕ) (rrs : List Rr) (rr : Rr)
    → kind rr ≡ q
    → ((q ≡ type_a) × ((listed d q rrs).type ≡ text "A"))
      ⊎ (((q ≡ type_aaaa) × ((listed d q rrs).type ≡ text "AAAA"))
          ⊎ ((q ≡ type_cname) × ((listed d q rrs).type ≡ [])))
unfolding listed
listed-type d q rrs (Rr.a h ip) k = inl (sym k, rw (sym k) refl)
listed-type d q rrs (Rr.aaaa h ip) k = inr (inl (sym k, rw (sym k) refl))
listed-type d q rrs (Rr.cname h name) k = inr (inr (sym k, rw (sym k) refl))

listed-IsListing :
    (d : Text) (q : ℕ) (rr : Rr) (rrs : List Rr)
    → IsCanonical d
    → Fits d q rr
    → IsListing d q (rr ∷ rrs) (listed d q (rr ∷ rrs))
listed-IsListing d q rr rrs canonical fits = record {
  name = listed-name d q (rr ∷ rrs) canonical;
  type = listed-type d q (rr ∷ rrs) rr fits.kind;
  ttl = unfold listed in last_ttl-IsLastTtl 0 rr rrs;
  ips = unfold listed in listed_ips-Texts (rr ∷ rrs);
  failover = unfold listed in refl;
}

module _ (c : RecordCache) (valid : IsValid c) where
  -- What stands in the map at a name and a query type, queries get.
  lookup-get :
      (d : Text) (q : ℕ) (rrs : List Rr) (m : QtypeMap)
      → lookup d c.records ≡ some m
      → lookup q m ≡ some rrs
      → get c d q ≡ rrs
  lookup-get d q rrs m there found =
      let spelled : normalize_domain d ≡ d =
        normalize_domain_of_IsCanonical d (valid.holds d m there).canonical in
      get-eq-entry c d q ∙ rw (spelled, entry_lem c.records d q, there, found) refl

  list_domain-Lists :
      (d : Text) (whole m : QtypeMap) (ks : List Key) (xs : List DnsRecord)
      → lookup d c.records ≡ some whole
      → ((q : ℕ) (v : List Rr) → lookup q m ≡ some v → lookup q whole ≡ some v)
      → HasKeysOnce m
      → Lists c ks xs
      → Lists c (domain_keys d m ++ ks) (list_domain d m ++ xs)
  unfolding list_domain
  list_domain-Lists d whole [] ks xs there within once rest = rest
  list_domain-Lists d whole ((q, []) ∷ m) ks xs there within (fresh, once) rest =
      list_domain-Lists d whole m ks xs there
        (λ k v found. within k v (later_key q k [] v m fresh found)) once rest
  list_domain-Lists d whole ((q, rr ∷ rrs) ∷ m) ks xs there within (fresh, once) rest =
      let holds = valid.holds d whole there in
      let found : lookup q whole ≡ some (rr ∷ rrs) =
        within q (rr ∷ rrs) (lookup-first q (rr ∷ rrs) m) in
      also d q rr rrs (listed d q (rr ∷ rrs)) (domain_keys d m ++ ks) (list_domain d m ++ xs)
        (normalize_domain_of_IsCanonical d holds.canonical)
        (lookup-get d q (rr ∷ rrs) whole there found)
        (listed-IsListing d q rr rrs holds.canonical (holds.entries q (rr ∷ rrs) found).1.0)
        (list_domain-Lists d whole m ks xs there
          (λ k v later. within k v (later_key q k (rr ∷ rrs) v m fresh later)) once rest)

  list_table-Lists :
      (t : Table)
      → ((d : Text) (m : QtypeMap) → lookup d t ≡ some m → lookup d c.records ≡ some m)
      → IsKeyed t
      → Lists c (table_keys t) (list_table t)
  unfolding list_table
  list_table-Lists [] within keyed = empty
  list_table-Lists ((d, m) ∷ t) within keyed =
      let first : lookup d ((d, m) ∷ t) ≡ some m = unfold lookup in rw (eqb_refl d) refl in
      list_domain-Lists d m m (table_keys t) (list_table t) (within d m first) (λ q v found. found)
        (keyed.qtypes d m first)
        (list_table-Lists t (λ k n found. within k n (later_domain d k m n t keyed.domains.0 found))
          (rest-IsKeyed d m t keyed))

-- The names, as the cache has them, and query types for which queries get something.
abbrev pub IsAnsweredAt : RecordCache → Text → ℕ → Type 0
IsAnsweredAt c d q = (normalize_domain d ≡ d) × (get c d q ≢ [])

Lists-IsAnsweredAt :
    (c : RecordCache) (d : Text) (q : ℕ) (ks : List Key) (xs : List DnsRecord)
    → Lists c ks xs
    → Memᴰ (d, q) ks
    → IsAnsweredAt c d q
Lists-IsAnsweredAt c d q _ _ empty h = absurd (not-nil h)
Lists-IsAnsweredAt c d q _ _ (also k j rr rrs x ks xs spelled given same rest) (head e) =
    let name : d ≡ k = ap (λ (p : Key). p.0) e in
    let type : q ≡ j = ap (λ (p : Key). p.1) e in
    (rw name spelled, λ none_there. cc (none_there, given, name, type))
Lists-IsAnsweredAt c d q _ _ (also k j rr rrs x ks xs spelled given same rest) (tail h) =
    Lists-IsAnsweredAt c d q ks xs rest h

get-table_keys :
    (c : RecordCache) (d : Text) (q : ℕ) → IsAnsweredAt c d q → Memᴰ (d, q) (table_keys c.records)
get-table_keys c d q (spelled, given) = elim (Option-cases (lookup d c.records)) [
  | inl missing ↦ absurd (
      given
        (get-eq-entry c d q ∙ rw (spelled, entry_lem c.records d q, missing, lookup-nil q) refl))
  | inr (m, there) ↦ elim (Option-cases (lookup q m)) [
    | inl missing ↦
        absurd
          (given (get-eq-entry c d q ∙ rw (spelled, entry_lem c.records d q, there, missing) refl))
    | inr ([], found) ↦
        absurd
          (given (get-eq-entry c d q ∙ rw (spelled, entry_lem c.records d q, there, found) refl))
    | inr (rr ∷ rrs, found) ↦ lookup-table_keys d q rr rrs m c.records there found
  ]
]

-- GetAllRecords lists what queries get: its records are those of some names and types, one for each
-- and in their order, of which none stands twice, and which are those that queries get something for.
pub get_all_records-Lists :
    (c : RecordCache)
    → IsValid c
    → IsKeyed c.records
    → (ks : List Key) × Lists c ks (get_all_records c)
      × Once ks
      × ((d : Text) (q : ℕ) → Memᴰ (d, q) ks ↔ IsAnsweredAt c d q)
unfolding get_all_records
get_all_records-Lists c valid keyed =
    let all = list_table-Lists c valid c.records (λ d m found. found) keyed in
    (
      table_keys c.records,
      all,
      table_keys-Once c.records keyed,
      λ d q. (
        Lists-IsAnsweredAt c d q (table_keys c.records) (list_table c.records) all,
        get-table_keys c d q,
      ),
    )
