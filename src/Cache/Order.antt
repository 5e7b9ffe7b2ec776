-- ===== src/Cache/Order.antt =====
-- What the order of records, and repeating them, means to the answers of a cache (cache.go).
use mathlib.Core.List.{Permᴰ}
use mathlib.Core.List.Permᴰ
use elchi_gslb.Prelude.{
  ℕ, ◌≡◌, refl, sym, ◌∙◌, List, [], ◌∷◌, ◌++◌, some, ◌⊎◌, inl, inr, list_eq, nat_eq, is_empty,
  Bool-cases, append_assoc, subst,
}
use elchi_gslb.Text.{Text}
use elchi_gslb.Name.{normalize_domain}
use elchi_gslb.Record.{DnsRecord, DnsSnapshot, Rr}
use elchi_gslb.Cache.{RecordCache, get, replace_from_snapshot}
use elchi_gslb.Cache.Spec.{contribution, contributions, overridden}
use elchi_gslb.Cache.Replace.{get-replace_from_snapshot}

module _ (zone : Text) (ttl : ℕ) (d : Text) (q : ℕ) where
  swapped : (xs ys rest : List Rr) → Permᴰ (xs ++ (ys ++ rest)) (ys ++ (xs ++ rest))
  swapped xs ys rest =
      subst (λ (l : List Rr). Permᴰ l (ys ++ (xs ++ rest))) (append_assoc xs ys rest)
        (subst (λ (l : List Rr). Permᴰ ((xs ++ ys) ++ rest) l) (append_assoc ys xs rest)
          (Permᴰ.append_right rest (Permᴰ.append_comm xs ys)))

  contributions-Perm :
      {rs rs' : List DnsRecord}
      → Permᴰ rs rs'
      → Permᴰ (contributions zone ttl d q rs) (contributions zone ttl d q rs')
  unfolding contributions
  contributions-Perm Permᴰ.nil = Permᴰ.nil
  contributions-Perm (Permᴰ.cons {a} {b} e p) =
      rw e (Permᴰ.append_left (contribution zone ttl d q b) (contributions-Perm p))
  contributions-Perm (Permᴰ.swap {a} {b} {a'} {b'} {l} e₁ e₂) =
      rw (e₁, e₂)
        (swapped (contribution zone ttl d q b') (contribution zone ttl d q a')
          (contributions zone ttl d q l))
  contributions-Perm (Permᴰ.trans p p') = Permᴰ.trans (contributions-Perm p) (contributions-Perm p')

  -- Either the updates decide what is there, or they leave what was there.
  overridden_cases :
      (rs : List DnsRecord)
      → ((new : List Rr) × ((old : List Rr) → overridden zone ttl d q rs old ≡ new))
        ⊎ ((old : List Rr) → overridden zone ttl d q rs old ≡ old)
  unfolding overridden
  overridden_cases [] = inr (λ old. refl)
  overridden_cases (r ∷ rs) = elim (overridden_cases rs) [
    | inl (new, h) ↦ inl (new, λ old. h _)
    | inr h ↦ elim (Bool-cases (is_empty (contribution zone ttl d q r))) [
      | inl nothing ↦ inr (λ old. rw nothing (h old))
      | inr something ↦
          inl (contribution zone ttl d q r, λ old. rw something (h (contribution zone ttl d q r)))
    ]
  ]

  pub overridden_idem :
      (rs : List DnsRecord) (old : List Rr)
      → overridden zone ttl d q rs (overridden zone ttl d q rs old) ≡ overridden zone ttl d q rs old
  overridden_idem rs old = elim (overridden_cases rs) [
    | inl (new, h) ↦ h _ ∙ sym (h old)
    | inr h ↦ h _
  ]

-- Snapshots with the same records in another order give the same answers up to order: what a query
-- gets of one is a permutation of what it gets of the other.
pub get-replace-Perm :
    (c c' : RecordCache) (s s' : DnsSnapshot) (ttl now now' : ℕ) (qname : Text) (q : ℕ)
    → c.zone ≡ c'.zone
    → Permᴰ s.records s'.records
    → Permᴰ
        (get (replace_from_snapshot c (some s) ttl now).0 qname q)
        (get (replace_from_snapshot c' (some s') ttl now').0 qname q)
get-replace-Perm c c' s s' ttl now now' qname q same p =
    rw
      (
        (get-replace_from_snapshot c s ttl now qname q).0,
        (get-replace_from_snapshot c' s' ttl now' qname q).0,
        same,
      )
      (contributions-Perm c'.zone ttl (normalize_domain qname) q p)
