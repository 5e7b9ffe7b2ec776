-- ===== src/Cache/Nested.antt =====
-- The nested map of RecordCache (cache.go), from domains to query types to resource records, and
-- the reads and writes that its methods make.
use elchi_gslb.Prelude.{
  ℕ, ◌+◌, List, [], ◌∷◌, ◌++◌, Option, none, some, Assoc, lookup, insert, delete, nat_eq, list_eq,
  list_eqb, is_empty, length, if◌then◌else◌,
}
use elchi_gslb.Text.{Text}
use elchi_gslb.Record.{Rr}

abbrev pub QtypeMap : Type 0
QtypeMap = Assoc ℕ (List Rr)

abbrev pub Table : Type 0
Table = Assoc Text QtypeMap

abbrev pub or_empty {ℓ} : {A : Type ℓ} → Option (List A) → List A
or_empty none = []
or_empty (some xs) = xs

-- `records[domain][qtype]`, which is nil where either key is missing.
unfoldable pub entry : Table → Text → ℕ → List Rr
unfolding lookup list_eqb
entry t domain qtype = or_empty (lookup qtype (or_empty (lookup domain t)))

-- `records[domain][qtype] = rrs`, behind the test that makes the inner map.
unfoldable pub store : Text → ℕ → List Rr → Table → Table
unfolding lookup insert list_eqb
store domain qtype rrs t = insert domain (insert qtype rrs (or_empty (lookup domain t))) t

-- `records[domain][qtype] = append(records[domain][qtype], rrs...)`
unfoldable pub append_at : Text → ℕ → List Rr → Table → Table
unfolding entry store
append_at domain qtype rrs t = store domain qtype (entry t domain qtype ++ rrs) t

-- Deletes the query type, and the domain with its last one.
unfoldable pub remove : Text → ℕ → Table → Table
unfolding lookup insert delete list_eqb
remove domain qtype t = elim (lookup domain t) [
  | none ↦ t
  | some qtype_map ↦
      let rest = delete qtype qtype_map in
      if is_empty rest then delete domain t else insert domain rest t
]

unfoldable pub qtype_map_count : QtypeMap → ℕ
qtype_map_count [] = 0
qtype_map_count ((qtype, rrs) ∷ m) = length rrs + qtype_map_count m

-- The count of all resource records, as RRCount and updateCacheSizeMetric take it.
unfoldable pub count_rrs : Table → ℕ
unfolding qtype_map_count
count_rrs [] = 0
count_rrs ((domain, m) ∷ t) = qtype_map_count m + count_rrs t
