-- ===== src/Cache/Entries.antt =====
-- How each write changes what stands at a domain and query type.
use elchi_gslb.Prelude.{
  ℕ, ◌≡◌, refl, List, [], ◌++◌, none, some, lookup, insert, delete, ◌==◌, nat_eq, list_eq,
  list_eqb_iff, is_empty, is_empty_iff, if◌then◌else◌, ◌&&◌, arith, lookup-insert, lookup-delete,
  Option-cases, inl, inr,
}
use elchi_gslb.Text.{Text}
use elchi_gslb.Record.{Rr}
use elchi_gslb.Cache.Nested.{Table, QtypeMap, or_empty, entry, store, append_at, remove}

pub entry_lem :
    (t : Table) (d : Text) (q : ℕ) → entry t d q ≡ or_empty (lookup q (or_empty (lookup d t)))
unfolding entry
entry_lem t d q = refl

pub store_lem :
    (d : Text) (q : ℕ) (rrs : List Rr) (t : Table)
    → store d q rrs t ≡ insert d (insert q rrs (or_empty (lookup d t))) t
unfolding store
store_lem d q rrs t = refl

pub append_at_lem :
    (d : Text) (q : ℕ) (rrs : List Rr) (t : Table)
    → append_at d q rrs t ≡ store d q (entry t d q ++ rrs) t
unfolding append_at
append_at_lem d q rrs t = refl

-- Storing at a place changes that place and no other.
pub entry-store :
    (d : Text) (q : ℕ) (rrs : List Rr) (t : Table) (d' : Text) (q' : ℕ)
    → entry (store d q rrs t) d' q' ≡ (if d == d' && q == q' then rrs else entry t d' q')
entry-store d q rrs t d' q' =
    rw (entry_lem (store d q rrs t) d' q', entry_lem t d' q', store_lem)
      (ground (
        arith,
        lookup-insert d d' (insert q rrs (or_empty (lookup d t))) t,
        lookup-insert q q' rrs (or_empty (lookup d t)),
        list_eqb_iff d d',
      ))

-- So does appending.
pub entry-append_at :
    (d : Text) (q : ℕ) (rrs : List Rr) (t : Table) (d' : Text) (q' : ℕ)
    → entry (append_at d q rrs t) d' q'
      ≡ (if d == d' && q == q' then entry t d' q' ++ rrs else entry t d' q')
entry-append_at d q rrs t d' q' = ground (
  arith,
  append_at_lem d q rrs t,
  entry-store d q (entry t d q ++ rrs) t d' q',
  list_eqb_iff d d',
)

pub lookup-nil : (q : ℕ) → lookup {V = List Rr} q [] ≡ none
unfolding lookup
lookup-nil q = refl

pub remove_lem :
    (d : Text) (q : ℕ) (t : Table) (m : QtypeMap)
    → lookup d t ≡ some m
    → remove d q t ≡ (if is_empty (delete q m) then delete d t else insert d (delete q m) t)
unfolding remove
remove_lem d q t m h = rw (h, remove)

module _ (d : Text) (q : ℕ) (t : Table) where
  pub remove_absent : lookup d t ≡ none → remove d q t ≡ t
  unfolding remove
  remove_absent h = rw (h, remove)

  module _ (d' : Text) (q' : ℕ) where
    -- Removing a query type of a domain leaves nothing at that place, and every other place as it
    -- was, whether or not the domain goes with it.
    pub entry-remove :
        entry (remove d q t) d' q' ≡ (if d == d' && q == q' then [] else entry t d' q')
    entry-remove = elim (Option-cases (lookup d t)) [
      | inl missing ↦
          rw (remove_absent missing, entry_lem t d' q')
            (ground (arith, missing, lookup-nil q', list_eqb_iff d d'))
      | inr (m, found) ↦
          rw
            (
              remove_lem d q t m found,
              entry_lem t d' q',
              entry_lem (if is_empty (delete q m) then delete d t else insert d (delete q m) t) d'
                  q',
            )
            (ground (
              arith,
              found,
              lookup-nil q',
              lookup-delete d d' t,
              lookup-insert d d' (delete q m) t,
              lookup-delete q q' m,
              is_empty_iff (delete q m),
              list_eqb_iff d d',
            ))
    ]
