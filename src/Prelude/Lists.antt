-- ===== src/Prelude/Lists.antt =====
-- Lists measured by native numbers, under the library's names, and what the components ask of lists.
use Prim.Native.Nat.{ℕ, suc, ◌+◌}
use mathlib.Core.Path.{◌≡◌, refl}
use mathlib.Core.Logic.{◌↔◌, ◌⊎◌, inl, inr}
use mathlib.Core.Bool.{Bool, true, false, ◌||◌}
use mathlib.Core.List.{List, [], ◌∷◌, ◌++◌, Memᴰ}
use mathlib.Core.List.Memᴰ.{head, tail, not-nil}
use native.Mathlib.Omega.{arith}
use elchi_gslb.Prelude.Tests.{if◌then◌else◌}

module _ {ℓ} {A : Type ℓ} where
  abbrev pub length : List A → ℕ
  length [] = 0
  length (x ∷ xs) = suc (length xs)

  pub length-append : (xs ys : List A) → length (xs ++ ys) ≡ length xs + length ys
  length-append [] ys = omega arith
  length-append (x ∷ xs) ys = omega (arith, length-append xs ys)

  -- Whether a slice is empty, `len(xs) == 0`.
  abbrev pub is_empty : List A → Bool
  is_empty [] = true
  is_empty (x ∷ xs) = false

  pub is_empty_iff : (xs : List A) → (is_empty xs ≡ true) ↔ (xs ≡ [])
  is_empty_iff [] = ground arith
  is_empty_iff (x ∷ xs) = ground arith

  abbrev pub any : (A → Bool) → List A → Bool
  any p [] = false
  any p (x ∷ xs) = p x || any p xs

  -- The elements that a test keeps.
  abbrev pub keep : (A → Bool) → List A → List A
  keep p [] = []
  keep p (x ∷ xs) = let rest = keep p xs in if p x then x ∷ rest else rest

module _ {ℓ} {A : Type ℓ} (x : A) where
  pub Mem-append_left : (xs ys : List A) → Memᴰ x xs → Memᴰ x (xs ++ ys)
  Mem-append_left [] ys m = absurd (not-nil m)
  Mem-append_left (y ∷ xs) ys (head e) = head e
  Mem-append_left (y ∷ xs) ys (tail m) = tail (Mem-append_left xs ys m)

  pub Mem-append_right : (xs ys : List A) → Memᴰ x ys → Memᴰ x (xs ++ ys)
  Mem-append_right [] ys m = m
  Mem-append_right (y ∷ xs) ys m = tail (Mem-append_right xs ys m)

  pub Mem-append_cases : (xs ys : List A) → Memᴰ x (xs ++ ys) → Memᴰ x xs ⊎ Memᴰ x ys
  Mem-append_cases [] ys m = inr m
  Mem-append_cases (y ∷ xs) ys (head e) = inl (head e)
  Mem-append_cases (y ∷ xs) ys (tail m) = elim (Mem-append_cases xs ys m) [
    | inl there ↦ inl (tail there)
    | inr later ↦ inr later
  ]

module _ {ℓ} {A : Type ℓ} where
  -- Nothing stands twice.
  abbrev pub Once : List A → Type ℓ
  Once [] = Unit
  Once (x ∷ xs) = (¬ Memᴰ x xs) × Once xs

  pub append-Once :
      (xs ys : List A) → Once xs → Once ys → ((x : A) → Memᴰ x xs → ¬ Memᴰ x ys) → Once (xs ++ ys)
  append-Once [] ys once once' apart = once'
  append-Once (x ∷ xs) ys (fresh, once) once' apart = (
    λ m. elim (Mem-append_cases x xs ys m) [
      | inl there ↦ fresh there
      | inr later ↦ apart x (head refl) later
    ],
    append-Once xs ys once once' (λ y m. apart y (tail m)),
  )

module _ {ℓ κ} {A : Type ℓ} (P : A → Type κ) where
  abbrev pub All : List A → Type κ
  All [] = Unit
  All (x ∷ xs) = P x × All xs

  -- What is taken out of a list, and what is left of it.
  pub All-remove :
      (before after : List A) (a : A) → All (before ++ (a ∷ after)) → P a × All (before ++ after)
  All-remove [] after a h = h
  All-remove (b ∷ before) after a (p, h) =
      let (q, rest) = All-remove before after a h in (q, (p, rest))

  pub All-append : (xs ys : List A) → All xs → All ys → All (xs ++ ys)
  All-append [] ys h k = k
  All-append (x ∷ xs) ys (p, h) k = (p, All-append xs ys h k)
