-- ===== src/Setup/Bounds.antt =====
-- The ranges of the numbers that the directives of parseElchi (setup.go) set.
use elchi_gslb.Prelude.{
  if◌then◌else◌, ℕ, ◌+◌, ◌-◌, ◌*◌, ◌≤◌, ◌<◌, ◌≡◌, ◌≢◌, refl, subst, Bool, true, false, not, ◌&&◌,
  List, [], ◌∷◌, ltb, leb, ◌==◌, list_eq, nat_eq, arith, Bool-cases, inl, inr,
}
use elchi_gslb.Text.{Text}
use elchi_gslb.Client.{Attempt, done, failed}
use elchi_gslb.Setup.{
  SetupError, check, ttl_zero, sync_interval_below_min, sync_interval_above_max, timeout_below_min,
  Parse, exhausted, panicked, refused, accepted, ◌>>=◌, Settings, set_ttl, set_sync_interval,
  set_timeout, set_regions, Uint, uint, invalid_syntax, out_of_range, uint_from, parse_uint,
  max_uint32, min_sync_interval, max_sync_interval, min_timeout, Duration, pos, negsuc,
}

-- The ranges that the directives keep to.
pub record InBounds (ttl sync_interval timeout : ℕ) : Type 0 where
  pub ttl_positive : 0 < ttl
  pub ttl_max : ttl ≤ max_uint32
  pub sync_interval_min : min_sync_interval ≤ sync_interval
  pub sync_interval_max : sync_interval ≤ max_sync_interval
  pub timeout_min : min_timeout ≤ timeout

-- A call that ends, with what P says of its result where there is one.
pub data OnParse {ℓ} {A : Type ℓ} (P : A → Type 0) : Parse A → Type ℓ where
  panics : OnParse P panicked
  refuses : {e : SetupError} → OnParse P (refused e)
  accepts : {a : A} → P a → OnParse P (accepted a)

abbrev Holds {ℓ} : {A : Type ℓ} → (A → Type 0) → Parse A → Type 0
Holds P exhausted = ⊥
Holds P panicked = Unit {0}
Holds P (refused e) = Unit {0}
Holds P (accepted a) = P a

module _ {ℓ} {A : Type ℓ} {P : A → Type 0} where
  OnParse-Holds : {m : Parse A} → OnParse P m → Holds P m
  OnParse-Holds panics = tt
  OnParse-Holds refuses = tt
  OnParse-Holds (accepts h) = h

  pub OnParse-accepted : {m : Parse A} {a : A} → OnParse P m → m ≡ accepted a → P a
  OnParse-accepted h same = subst (Holds P) same (OnParse-Holds h)

  pub OnParse-ends : {m : Parse A} → OnParse P m → m ≢ exhausted
  OnParse-ends h same = subst (Holds P) same (OnParse-Holds h)

  pub OnParse-bind {κ} :
      {B : Type κ} {Q : B → Type 0} {m : Parse A} {k : A → Parse B}
      → OnParse P m
      → ((a : A) → P a → OnParse Q (k a))
      → OnParse Q (m >>= k)
  OnParse-bind panics after = panics
  OnParse-bind refuses after = refuses
  OnParse-bind (accepts h) after = after _ h

  pub OnParse-if :
      (b : Bool) {m n : Parse A} → OnParse P m → OnParse P n → OnParse P (if b then m else n)
  OnParse-if true h k = h
  OnParse-if false h k = k

  pub OnParse-check :
      (b : Bool) (e : SetupError) {m : Parse A}
      → (b ≡ false → OnParse P m)
      → OnParse P (check b e m)
  OnParse-check true e h = refuses
  OnParse-check false e h = h refl

abbrev pub OnUint : Uint → Type 0
OnUint (uint n) = n ≤ max_uint32
OnUint invalid_syntax = Unit {0}
OnUint out_of_range = Unit {0}

uint_from-OnUint : (n : ℕ) (s : Text) → n ≤ max_uint32 → OnUint (uint_from n s)
unfolding uint_from
uint_from-OnUint n [] h = h
uint_from-OnUint n (c ∷ s) h =
    let next : ℕ = n * 10 + (c - b'0') in
    elim (Bool-cases (not (leb b'0' c && leb c b'9'))) [
      | inl bad ↦ rw bad tt
      | inr good ↦ elim (Bool-cases (ltb max_uint32 next)) [
        | inl above ↦ rw (good, above) tt
        | inr within ↦ rw (good, within) (uint_from-OnUint next s (ground arith))
      ]
    ]

pub parse_uint-OnUint : (s : Text) → OnUint (parse_uint s)
unfolding parse_uint
parse_uint-OnUint [] = tt
parse_uint-OnUint (c ∷ s) = uint_from-OnUint 0 (c ∷ s) (omega arith)

abbrev pub Bounded : Settings → Type 0
Bounded p = InBounds p.config.ttl p.config.sync_interval p.config.timeout

module _ (p : Settings) (h : Bounded p) where
  pub set_ttl-Bounded : (n : Uint) → OnUint n → OnParse Bounded (set_ttl p n)
  unfolding set_ttl
  set_ttl-Bounded invalid_syntax small = refuses
  set_ttl-Bounded out_of_range small = refuses
  set_ttl-Bounded (uint n) small = OnParse-check (n == 0) ttl_zero λ positive. accepts (record {
    ttl_positive = ground arith;
    ttl_max = small;
    sync_interval_min = h.sync_interval_min;
    sync_interval_max = h.sync_interval_max;
    timeout_min = h.timeout_min;
  })

  pub set_sync_interval-Bounded : (d : Attempt Duration) → OnParse Bounded (set_sync_interval p d)
  unfolding set_sync_interval
  set_sync_interval-Bounded (failed m) = refuses
  set_sync_interval-Bounded (done (negsuc n)) = refuses
  set_sync_interval-Bounded (done (pos n)) =
      OnParse-check (ltb n min_sync_interval) sync_interval_below_min λ above.
        OnParse-check (ltb max_sync_interval n) sync_interval_above_max λ below. accepts (record {
          ttl_positive = h.ttl_positive;
          ttl_max = h.ttl_max;
          sync_interval_min = ground arith;
          sync_interval_max = ground arith;
          timeout_min = h.timeout_min;
        })

  pub set_timeout-Bounded : (d : Attempt Duration) → OnParse Bounded (set_timeout p d)
  unfolding set_timeout
  set_timeout-Bounded (failed m) = refuses
  set_timeout-Bounded (done (negsuc n)) = refuses
  set_timeout-Bounded (done (pos n)) = OnParse-check (ltb n min_timeout) timeout_below_min λ above.
      accepts (record {
        ttl_positive = h.ttl_positive;
        ttl_max = h.ttl_max;
        sync_interval_min = h.sync_interval_min;
        sync_interval_max = h.sync_interval_max;
        timeout_min = ground arith;
      })

  pub set_regions-Bounded : (args : List Text) → OnParse Bounded (set_regions p args)
  unfolding set_regions
  set_regions-Bounded [] = refuses
  set_regions-Bounded (arg ∷ args) = accepts h
