-- ===== src/Cache/Keys.antt =====
-- The keys of the nested map of RecordCache (cache.go), which is a Go map: none stands twice.
use elchi_gslb.Prelude.{
  ℕ, List, [], list_eq, nat_eq, lookup, insert, delete, is_empty, Bool-cases, Option-cases, inl,
  inr, Everywhere, Everywhere-insert, Everywhere-delete, Everywhere-nil, HasKeysOnce,
  insert-HasKeysOnce, delete-HasKeysOnce,
}
use elchi_gslb.Text.{Text}
use elchi_gslb.Record.{Rr}
use elchi_gslb.Cache.Nested.{Table, QtypeMap, or_empty, store, remove}
use elchi_gslb.Cache.Entries.{store_lem, remove_lem, remove_absent}
use elchi_gslb.Cache.Kept.{IsWritten}

-- Neither a domain nor, within a domain, a query type stands twice.
pub record IsKeyed (t : Table) : Type 0 where
  pub domains : HasKeysOnce t
  pub qtypes : Everywhere (λ d m. HasKeysOnce m) t

IsKeyed-insert :
    (d : Text) (m : QtypeMap) (t : Table) → HasKeysOnce m → IsKeyed t → IsKeyed (insert d m t)
IsKeyed-insert d m t once h = record {
  domains = insert-HasKeysOnce d m t h.domains;
  qtypes = Everywhere-insert (λ d m. HasKeysOnce m) d m t once h.qtypes;
}

inner-HasKeysOnce : (d : Text) (t : Table) → IsKeyed t → HasKeysOnce (or_empty (lookup d t))
inner-HasKeysOnce d t h = elim (Option-cases (lookup d t)) [
  | inl missing ↦ rw missing tt
  | inr (m, found) ↦ rw found (h.qtypes d m found)
]

store-IsKeyed :
    (d : Text) (q : ℕ) (rrs : List Rr) (t : Table) → IsKeyed t → IsKeyed (store d q rrs t)
store-IsKeyed d q rrs t h = rw store_lem (
    IsKeyed-insert d (insert q rrs (or_empty (lookup d t))) t
      (insert-HasKeysOnce q rrs (or_empty (lookup d t)) (inner-HasKeysOnce d t h)) h)

remove-IsKeyed : (d : Text) (q : ℕ) (t : Table) → IsKeyed t → IsKeyed (remove d q t)
remove-IsKeyed d q t h = elim (Option-cases (lookup d t)) [
  | inl missing ↦ rw (remove_absent d q t missing) h
  | inr (m, found) ↦ rw (remove_lem d q t m found) (elim (Bool-cases (is_empty (delete q m))) [
    | inl gone ↦ rw gone (record {
      domains = delete-HasKeysOnce d t h.domains;
      qtypes = Everywhere-delete (λ d m. HasKeysOnce m) d t h.qtypes;
    })
    | inr left ↦
        rw left (IsKeyed-insert d (delete q m) t (delete-HasKeysOnce q m (h.qtypes d m found)) h)
  ])
]

pub IsKeyed-nil : IsKeyed []
IsKeyed-nil = record { domains = tt; qtypes = Everywhere-nil (λ d m. HasKeysOnce m) }

pub IsKeyed-IsWritten : IsWritten IsKeyed
IsKeyed-IsWritten = record { empty = IsKeyed-nil; stored = store-IsKeyed; removed = remove-IsKeyed }
