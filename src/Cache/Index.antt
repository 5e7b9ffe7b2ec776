-- ===== src/Cache/Index.antt =====
-- The names and query types that RecordCache (cache.go) has something for, in the order of its map.
use mathlib.Core.List.{Memᴰ}
use mathlib.Core.List.Memᴰ.{head, tail, not-nil}
use elchi_gslb.Prelude.{
  ℕ, ◌≡◌, refl, ap, sym, List, [], ◌∷◌, ◌++◌, some, ◌==◌, list_eq, nat_eq, lookup, HasKeysOnce,
  Bool-cases, inl, inr, list_eqb_iff, nat_eqb_iff, eqb_refl, Mem-append_left, Mem-append_right,
  Mem-append_cases, Once, append-Once,
}
use elchi_gslb.Text.{Text}
use elchi_gslb.Record.{Rr}
use elchi_gslb.Cache.Nested.{Table, QtypeMap}
use elchi_gslb.Cache.Exact.{later_key, later_domain, lookup-first, rest-IsKeyed}
use elchi_gslb.Cache.Keys.{IsKeyed}

-- A name and a query type.
abbrev pub Key : Type 0
Key = Text × ℕ

abbrev pub domain_keys : Text → QtypeMap → List Key
domain_keys d [] = []
domain_keys d ((q, []) ∷ m) = domain_keys d m
domain_keys d ((q, rr ∷ rrs) ∷ m) = (d, q) ∷ domain_keys d m

abbrev pub table_keys : Table → List Key
table_keys [] = []
table_keys ((d, m) ∷ t) = domain_keys d m ++ table_keys t

-- What is among the keys, the map has.
domain_keys-lookup :
    (k : Key) (d : Text) (m : QtypeMap)
    → HasKeysOnce m
    → Memᴰ k (domain_keys d m)
    → (k.0 ≡ d) × ((rr : Rr) × (rrs : List Rr) × (lookup k.1 m ≡ some (rr ∷ rrs)))
domain_keys-lookup k d [] once h = absurd (not-nil h)
domain_keys-lookup k d ((q, []) ∷ m) (fresh, once) h =
    let (same, (rr, rrs, found)) = domain_keys-lookup k d m once h in
    (same, (rr, rrs, later_key q k.1 [] (rr ∷ rrs) m fresh found))
domain_keys-lookup k d ((q, rr ∷ rrs) ∷ m) (fresh, once) (head e) =
    (ap (λ (j : Key). j.0) e, (rr, rrs, rw e (lookup-first q (rr ∷ rrs) m)))
domain_keys-lookup k d ((q, r ∷ rs) ∷ m) (fresh, once) (tail h) =
    let (same, (rr, rrs, found)) = domain_keys-lookup k d m once h in
    (same, (rr, rrs, later_key q k.1 (r ∷ rs) (rr ∷ rrs) m fresh found))

table_keys-lookup :
    (k : Key) (t : Table)
    → IsKeyed t
    → Memᴰ k (table_keys t)
    → (m : QtypeMap) × (lookup k.0 t ≡ some m)
unfolding lookup
table_keys-lookup k [] keyed h = absurd (not-nil h)
table_keys-lookup k ((d, n) ∷ t) keyed h =
    let first : lookup d ((d, n) ∷ t) ≡ some n = rw (eqb_refl d) refl in
    elim (Mem-append_cases k (domain_keys d n) (table_keys t) h) [
      | inl here ↦
          let (same, _) = domain_keys-lookup k d n (keyed.qtypes d n first) here in
          (n, rw (same, eqb_refl d) refl)
      | inr later ↦
          let (m, found) = table_keys-lookup k t (rest-IsKeyed d n t keyed) later in
          (m, later_domain d k.0 n m t keyed.domains.0 found)
    ]

-- What the map has is among the keys.
lookup-domain_keys :
    (d : Text) (q : ℕ) (rr : Rr) (rrs : List Rr) (m : QtypeMap)
    → lookup q m ≡ some (rr ∷ rrs)
    → Memᴰ (d, q) (domain_keys d m)
unfolding lookup
lookup-domain_keys d q rr rrs [] found = absurd (cc found)
lookup-domain_keys d q rr rrs ((k, []) ∷ m) found = elim (Bool-cases (k == q)) [
  | inl same ↦ absurd (cc (rw same at found))
  | inr other ↦ lookup-domain_keys d q rr rrs m (rw other at found)
]
lookup-domain_keys d q rr rrs ((k, v ∷ vs) ∷ m) found = elim (Bool-cases (k == q)) [
  | inl same ↦ head (ap (λ (j : ℕ). (d, j)) (sym ((nat_eqb_iff k q).0 same)))
  | inr other ↦ tail (lookup-domain_keys d q rr rrs m (rw other at found))
]

pub lookup-table_keys :
    (d : Text) (q : ℕ) (rr : Rr) (rrs : List Rr) (m : QtypeMap) (t : Table)
    → lookup d t ≡ some m
    → lookup q m ≡ some (rr ∷ rrs)
    → Memᴰ (d, q) (table_keys t)
unfolding lookup
lookup-table_keys d q rr rrs m [] there found = absurd (cc there)
lookup-table_keys d q rr rrs m ((k, n) ∷ t) there found = elim (Bool-cases (k == d)) [
  | inl same ↦
      let key : k ≡ d = (list_eqb_iff k d).0 same in
      let value : n ≡ m = cc (rw same at there) in
      Mem-append_left (d, q) (domain_keys k n) (table_keys t)
        (rw (key, value) (lookup-domain_keys d q rr rrs m found))
  | inr other ↦
      Mem-append_right (d, q) (domain_keys k n) (table_keys t)
        (lookup-table_keys d q rr rrs m t (rw other at there) found)
]

domain_keys-Once : (d : Text) (m : QtypeMap) → HasKeysOnce m → Once (domain_keys d m)
domain_keys-Once d [] once = tt
domain_keys-Once d ((q, []) ∷ m) (fresh, once) = domain_keys-Once d m once
domain_keys-Once d ((q, rr ∷ rrs) ∷ m) (fresh, once) = (
  λ again. let (_, (r, rs, found)) = domain_keys-lookup (d, q) d m once again in cc (fresh, found),
  domain_keys-Once d m once,
)

pub table_keys-Once : (t : Table) → IsKeyed t → Once (table_keys t)
table_keys-Once [] keyed = tt
table_keys-Once ((d, m) ∷ t) keyed =
    let first : lookup d ((d, m) ∷ t) ≡ some m = unfold lookup in rw (eqb_refl d) refl in
    let rest : IsKeyed t = rest-IsKeyed d m t keyed in
    append-Once (domain_keys d m) (table_keys t) (domain_keys-Once d m (keyed.qtypes d m first))
      (table_keys-Once t rest)
      (λ k here later.
        let (same, _) = domain_keys-lookup k d m (keyed.qtypes d m first) here in
        let (n, found) = table_keys-lookup k t rest later in cc (keyed.domains.0, same, found))
