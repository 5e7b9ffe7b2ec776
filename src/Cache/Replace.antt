-- ===== src/Cache/Replace.antt =====
-- ReplaceFromSnapshot and Get (cache.go): what a query gets of a snapshot.
use elchi_gslb.Prelude.{
  ℕ, ◌≡◌, refl, ap, sym, ◌∙◌, Bool, true, false, ◌&&◌, List, [], ◌∷◌, ◌++◌, ◌==◌, none, some, All,
  list_eq, nat_eq, if◌then◌else◌, arith, Bool-cases, inl, inr, append-nil, append_assoc,
}
use elchi_gslb.Text.{Text}
use elchi_gslb.Name.{normalize_domain, outside_zone}
use elchi_gslb.Record.{DnsRecord, DnsSnapshot, Rr, header}
use elchi_gslb.Record.Build.{Built, ok, err, build_dns_records}
use elchi_gslb.Record.Build.Laws.{built_type, OnOk, IsBuiltFrom, build-OnOk}
use elchi_gslb.Cache.Nested.{entry}
use elchi_gslb.Cache.{
  RecordCache, Loading, nothing_loaded, load_built, load_record, load_records,
  replace_from_snapshot, get,
}
use elchi_gslb.Cache.Spec.{or_ok, contribution, contributions}
use elchi_gslb.Cache.Entries.{entry-append_at, lookup-nil}

-- Filed under a type.
abbrev pub FiledAt : ℕ → Rr → Type 0
FiledAt q rr = (header rr).rrtype ≡ q

All-FiledAt :
    (r : DnsRecord) (ttl : ℕ) (rrs : List Rr)
    → All (IsBuiltFrom r ttl) rrs
    → All (FiledAt (built_type r)) rrs
All-FiledAt r ttl [] h = tt
All-FiledAt r ttl (rr ∷ rrs) (h, hs) = (h.rrtype, All-FiledAt r ttl rrs hs)

pub built-FiledAt :
    (r : DnsRecord) (ttl : ℕ) → OnOk (FiledAt (built_type r)) (build_dns_records r ttl)
built-FiledAt r ttl = go (build_dns_records r ttl) (build-OnOk r ttl)
  where
    go : (b : Built) → OnOk (IsBuiltFrom r ttl) b → OnOk (FiledAt (built_type r)) b
    go (ok rrs) h = All-FiledAt r ttl rrs h
    go (err e) h = tt

append-if-nil {ℓ} : {A : Type ℓ} (xs : List A) (b : Bool) → xs ≡ xs ++ (if b then [] else [])
append-if-nil xs true = sym (append-nil xs)
append-if-nil xs false = sym (append-nil xs)

append-if {ℓ} :
    {A : Type ℓ} (xs ys : List A) (b : Bool)
    → (if b then xs ++ ys else xs) ≡ xs ++ (if b then ys else [])
append-if xs ys true = refl
append-if xs ys false = sym (append-nil xs)

module _ (d : Text) (q : ℕ) where
  entry-load_built :
      (domain : Text) (q₀ : ℕ) (b : Built) (l : Loading)
      → OnOk (FiledAt q₀) b
      → entry (load_built domain b l).new_records d q
        ≡ entry l.new_records d q ++ (if domain == d && q₀ == q then or_ok b else [])
  entry-load_built domain q₀ (err e) l h = append-if-nil _ _
  entry-load_built domain q₀ (ok []) l h = append-if-nil _ _
  entry-load_built domain q₀ (ok (rr ∷ rrs)) l (h, hs) = rw h (
      entry-append_at domain q₀ (rr ∷ rrs) l.new_records d q
      ∙ append-if (entry l.new_records d q) (rr ∷ rrs) (domain == d && q₀ == q))

  module _ (zone : Text) (ttl : ℕ) where
    entry-load_record :
        (r : DnsRecord) (l : Loading)
        → entry (load_record zone ttl r l).new_records d q
          ≡ entry l.new_records d q ++ contribution zone ttl d q r
    unfolding load_record contribution
    entry-load_record r l = elim (Bool-cases (outside_zone zone (normalize_domain r.name))) [
      | inl out ↦ rw out (sym (append-nil _))
      | inr within ↦ rw within (
          entry-load_built (normalize_domain r.name) (built_type r) (build_dns_records r ttl) l
            (built-FiledAt r ttl))
    ]

    entry-load_records :
        (rs : List DnsRecord) (l : Loading)
        → entry (load_records zone ttl rs l).new_records d q
          ≡ entry l.new_records d q ++ contributions zone ttl d q rs
    unfolding load_records contributions
    entry-load_records [] l = sym (append-nil _)
    entry-load_records (r ∷ rs) l =
        entry-load_records rs (load_record zone ttl r l)
        ∙ ap (λ (xs : List Rr). xs ++ contributions zone ttl d q rs) (entry-load_record r l)
        ∙ append_assoc (entry l.new_records d q) _ _

-- A query reads the place of its normalized name.
pub get-eq-entry :
    (c : RecordCache) (qname : Text) (q : ℕ)
    → get c qname q ≡ entry c.records (normalize_domain qname) q
unfolding get entry
get-eq-entry c qname q = ground (arith, lookup-nil q)

entry-nil : (d : Text) (q : ℕ) → entry [] d q ≡ []
unfolding entry
entry-nil d q = refl

-- After a snapshot is loaded, a query gets exactly the resource records that the snapshot's records
-- contribute to its normalized name and type, in the snapshot's order: nothing of the earlier
-- cache is left. The version hash is the snapshot's, and there is no error.
pub get-replace_from_snapshot :
    (c : RecordCache) (s : DnsSnapshot) (ttl now : ℕ) (qname : Text) (q : ℕ)
    → (get (replace_from_snapshot c (some s) ttl now).0 qname q
        ≡ contributions c.zone ttl (normalize_domain qname) q s.records)
      × ((replace_from_snapshot c (some s) ttl now).0.version_hash ≡ s.version_hash)
      × ((replace_from_snapshot c (some s) ttl now).1 ≡ none)
unfolding replace_from_snapshot
get-replace_from_snapshot c s ttl now qname q =
    let d = normalize_domain qname in
    (
      get-eq-entry (replace_from_snapshot c (some s) ttl now).0 qname q
          ∙ entry-load_records d q c.zone ttl s.records nothing_loaded
          ∙ ap (λ (xs : List Rr). xs ++ contributions c.zone ttl d q s.records) (entry-nil d q),
      refl,
      refl,
    )
