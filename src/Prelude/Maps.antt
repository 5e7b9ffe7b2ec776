-- ===== src/Prelude/Maps.antt =====
-- A Go map as an association list. Go does not fix the order in which a map is ranged over: no
-- theorem of the library turns on the order of the list.
use mathlib.Core.Path.{◌≡◌, refl, sym, subst}
use mathlib.Core.Logic.{◌≢◌, inl, inr}
use mathlib.Core.Option.{Option, none, some}
use mathlib.Core.List.{List, [], ◌∷◌}
use native.Mathlib.Omega.{arith}
use elchi_gslb.Prelude.Tests.{Eq, Bool-cases, ◌==◌, if◌then◌else◌}

abbrev pub Assoc {ℓ κ} : Type ℓ → Type κ → Type (ℓ ⊔ κ)
Assoc K V = List (K × V)

module _ {ℓ κ} {K : Type ℓ} {V : Type κ} ⦃e : Eq K⦄ where
  -- `v, exists := m[k]`
  unfoldable pub lookup : K → Assoc K V → Option V
  lookup key ((first, v) ∷ rest) = if first == key then some v else lookup key rest
  lookup key [] = none

  -- `m[k] = v`
  unfoldable pub insert : K → V → Assoc K V → Assoc K V
  insert key v ((first, w) ∷ rest) =
      if first == key then (key, v) ∷ rest else (first, w) ∷ insert key v rest
  insert key v [] = (key, v) ∷ []

  -- `delete(m, k)`
  unfoldable pub delete : K → Assoc K V → Assoc K V
  delete k [] = []
  delete k ((j, w) ∷ m) = let rest = delete k m in if j == k then rest else (j, w) ∷ rest

  pub lookup-insert :
      (put asked : K) (v : V) (m : Assoc K V)
      → lookup asked (insert put v m) ≡ (if put == asked then some v else lookup asked m)
  unfolding lookup insert
  lookup-insert put asked v ((first, w) ∷ rest) = ground (
    arith,
    e.eqb_iff first put,
    e.eqb_iff first asked,
    e.eqb_iff put asked,
    lookup-insert put asked v rest,
  )
  lookup-insert put asked v [] = refl

  pub lookup-delete :
      (k j : K) (m : Assoc K V) → lookup j (delete k m) ≡ (if k == j then none else lookup j m)
  unfolding lookup delete
  lookup-delete k j [] = ground arith
  lookup-delete k j ((i, w) ∷ m) =
      ground (arith, e.eqb_iff k j, e.eqb_iff i k, e.eqb_iff i j, lookup-delete k j m)

  pub insert-ne-nil : (k : K) (v : V) (m : Assoc K V) → insert k v m ≢ []
  unfolding insert
  insert-ne-nil k v [] e = cc
  insert-ne-nil k v ((j, w) ∷ m) e = ground arith

-- What holds of every value that a map holds.
abbrev pub Everywhere {ℓ κ μ} :
    {K : Type ℓ} {V : Type κ} ⦃e : Eq K⦄ → (K → V → Type μ) → Assoc K V → Type (ℓ ⊔ κ ⊔ μ)
Everywhere {K} {V} P m = (k : K) (v : V) → lookup k m ≡ some v → P k v

module _ {ℓ κ μ} {K : Type ℓ} {V : Type κ} ⦃e : Eq K⦄ (P : K → V → Type μ) where
  pub Everywhere-insert :
      (k : K) (v : V) (m : Assoc K V) → P k v → Everywhere P m → Everywhere P (insert k v m)
  Everywhere-insert k v m p h j w found = elim (Bool-cases (k == j)) [
    | inl same ↦
        let stored : v ≡ w = ground (arith, lookup-insert k j v m) in
        subst (λ (i : K). P i w) ((e.eqb_iff k j).0 same) (subst (P k) stored p)
    | inr other ↦ h j w (rw (lookup-insert k j v m, other) at found)
  ]

  pub Everywhere-delete : (k : K) (m : Assoc K V) → Everywhere P m → Everywhere P (delete k m)
  Everywhere-delete k m h j w found = elim (Bool-cases (k == j)) [
    | inl same ↦ absurd (cc (rw (lookup-delete k j m, same) at found))
    | inr other ↦ h j w (rw (lookup-delete k j m, other) at found)
  ]

  pub Everywhere-nil : Everywhere P []
  unfolding lookup
  Everywhere-nil k v found = cc

-- No key stands twice, as in a Go map.
module _ {ℓ κ} {K : Type ℓ} {V : Type κ} ⦃e : Eq K⦄ where
  abbrev pub HasKeysOnce : Assoc K V → Type κ
  HasKeysOnce [] = Unit
  HasKeysOnce ((k, v) ∷ m) = (lookup k m ≡ none) × HasKeysOnce m

  pub insert-HasKeysOnce :
      (k : K) (v : V) (m : Assoc K V) → HasKeysOnce m → HasKeysOnce (insert k v m)
  unfolding insert
  insert-HasKeysOnce k v [] h = (unfold lookup in refl, tt)
  insert-HasKeysOnce k v ((j, w) ∷ m) (fresh, h) = elim (Bool-cases (j == k)) [
    | inl same ↦ rw same (rw (sym ((e.eqb_iff j k).0 same)) fresh, h)
    | inr other ↦ rw other (
      ground (arith, fresh, e.eqb_iff k j, e.eqb_iff j k, lookup-insert k j v m),
      insert-HasKeysOnce k v m h,
    )
  ]

  pub delete-HasKeysOnce : (k : K) (m : Assoc K V) → HasKeysOnce m → HasKeysOnce (delete k m)
  unfolding delete
  delete-HasKeysOnce k [] h = tt
  delete-HasKeysOnce k ((j, w) ∷ m) (fresh, h) = elim (Bool-cases (j == k)) [
    | inl same ↦ rw same (delete-HasKeysOnce k m h)
    | inr other ↦
        rw other (rw (lookup-delete k j m) (ground (arith, fresh)), delete-HasKeysOnce k m h)
  ]

module _ {ℓ κ μ} {K : Type ℓ} {V : Type κ} ⦃e : Eq K⦄ (P : K → V → Type μ) where
  -- What holds of every pair of the list.
  abbrev pub AllPairs : Assoc K V → Type μ
  AllPairs [] = Unit
  AllPairs ((k, v) ∷ m) = P k v × AllPairs m

  pub AllPairs-Everywhere : (m : Assoc K V) → AllPairs m → Everywhere P m
  unfolding lookup
  AllPairs-Everywhere [] h k v found = absurd (cc found)
  AllPairs-Everywhere ((j, w) ∷ m) (p, h) k v found = elim (Bool-cases (j == k)) [
    | inl same ↦
        let stored : w ≡ v = cc (rw same at found) in
        subst (λ (i : K). P i v) ((e.eqb_iff j k).0 same) (subst (P j) stored p)
    | inr other ↦ AllPairs-Everywhere m h k v (rw other at found)
  ]
