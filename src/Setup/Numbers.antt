-- ===== src/Setup/Numbers.antt =====
-- strconv.ParseUint and the ttl directive (setup.go) on numbers in decimal.
use elchi_gslb.Prelude.{
  ◌≢◌, ℕ, zero, suc, ◌+◌, ◌-◌, ◌*◌, ◌/◌, ◌%◌, ◌<◌, ◌≡◌, refl, true, false, not, ◌&&◌, [], ◌∷◌, ltb,
  leb, ◌==◌, nat_eq, if◌then◌else◌, arith, Bool-cases, inl, inr,
}
use elchi_gslb.Text.{Text}
use elchi_gslb.Client.{decimal, decimal_from}
use elchi_gslb.Setup.{
  refused, accepted, Settings, set_ttl, ttl_zero, ttl_range, uint, out_of_range, uint_from,
  parse_uint, max_uint32,
}

-- One digit of the number that is read.
uint_from-digit :
    (n d : ℕ) (s : Text)
    → d < 10
    → uint_from n ((d + b'0') ∷ s)
      ≡ (if ltb max_uint32 (n * 10 + d) then out_of_range else uint_from (n * 10 + d) s)
unfolding uint_from
uint_from-digit n d s small =
    let shift : d + b'0' - b'0' ≡ d = omega arith in
    let digit : not (leb b'0' (d + b'0') && leb (d + b'0') b'9') ≡ false = ground arith in
    rw (digit, shift) refl

uint_from-decimal_from :
    (fuel n : ℕ) (after : Text)
    → n < fuel
    → uint_from 0 (decimal_from fuel n after)
      ≡ (if ltb max_uint32 n then out_of_range else uint_from n after)
unfolding decimal_from
uint_from-decimal_from zero n after enough = ground arith
uint_from-decimal_from (suc fuel) n after enough = elim (Bool-cases (n / 10 == 0)) [
  | inl last ↦
      let whole : 0 * 10 + n % 10 ≡ n = ground arith in
      rw (last, uint_from-digit 0 (n % 10) after (omega arith), whole) refl
  | inr more ↦
      let whole : n / 10 * 10 + n % 10 ≡ n = omega arith in
      let digits : Text = (n % 10 + b'0') ∷ after in
      rw
        (
          more,
          uint_from-decimal_from fuel (n / 10) digits (ground arith),
          uint_from-digit (n / 10) (n % 10) after (omega arith),
          whole,
        )
        (elim (Bool-cases (ltb max_uint32 (n / 10))) [
          | inl above ↦ let over : ltb max_uint32 n ≡ true = ground arith in rw (above, over) refl
          | inr within ↦ rw within refl
        ])
]

decimal_from-cons : (fuel n c : ℕ) (s : Text) → decimal_from fuel n (c ∷ s) ≢ []
unfolding decimal_from
decimal_from-cons zero n c s e = cc
decimal_from-cons (suc fuel) n c s e =
    ground (arith, decimal_from-cons fuel (n / 10) (n % 10 + b'0') (c ∷ s))

parse_uint_lem : (s : Text) → s ≢ [] → parse_uint s ≡ uint_from 0 s
unfolding parse_uint
parse_uint_lem [] h = ground arith
parse_uint_lem (c ∷ s) h = refl

decimal-cons : (n : ℕ) → decimal n ≢ []
unfolding decimal decimal_from
decimal-cons n e = ground (arith, decimal_from-cons n (n / 10) (n % 10 + b'0') [])

uint_from_nil : (n : ℕ) → uint_from n [] ≡ uint n
unfolding uint_from
uint_from_nil n = refl

decimal_lem : (n : ℕ) → decimal n ≡ decimal_from (suc n) n []
unfolding decimal
decimal_lem n = refl

-- The decimal digits of a number are read as that number where it fits into 32 bits, and refused as
-- out of range where it does not.
parse_uint-decimal :
    (n : ℕ) → parse_uint (decimal n) ≡ (if ltb max_uint32 n then out_of_range else uint n)
parse_uint-decimal n =
    rw
      (
        parse_uint_lem (decimal n) (decimal-cons n),
        decimal_lem,
        uint_from-decimal_from (suc n) n [] (omega arith),
        uint_from_nil,
      )
      refl

-- The ttl directive with a number in decimal: it is set where it is from 1 to 2 ^ 32 - 1, and it is
-- refused as zero or as out of range where it is not.
pub set_ttl-decimal :
    (p : Settings) (n : ℕ)
    → set_ttl p (parse_uint (decimal n)) ≡ (
        if n == 0
        then refused ttl_zero
        else if ltb max_uint32 n
        then refused ttl_range
        else accepted (record p { config = record p.config { ttl = n } }))
unfolding set_ttl
set_ttl-decimal p n = rw (parse_uint-decimal n) (elim (Bool-cases (ltb max_uint32 n)) [
  | inl above ↦ let positive : (n == 0) ≡ false = ground arith in rw (above, positive) refl
  | inr within ↦ elim (Bool-cases (n == 0)) [
    | inl none_set ↦ rw (within, none_set) refl
    | inr positive ↦ rw (within, positive) refl
  ]
])
