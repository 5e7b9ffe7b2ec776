-- ===== src/Ip/V6.antt =====
-- Hexadecimal groups, the loop of Go's netip.parseIPv6 on a text without a zone.
use elchi_gslb.Prelude.{
  ℕ, zero, suc, ◌+◌, ◌*◌, ◌-◌, ◌/◌, ◌%◌, Bool, true, false, ◌&&◌, ◌||◌, not, [], ◌∷◌, ◌++◌, Option,
  none, some, leb, ltb, ◌==◌, nat_eq, length, is_empty, if◌then◌else◌,
}
use elchi_gslb.Text.{Text}
use elchi_gslb.Ip.V4.{Ip, is_digit, parse_v4}

abbrev hex_digit : ℕ → Option ℕ
hex_digit c =
    if is_digit c
    then some (c - b'0')
    else if leb b'a' c && leb c b'f'
    then some (c - b'a' + 10)
    else if leb b'A' c && leb c b'F'
    then some (c - b'A' + 10)
    else none

-- One group: the digits read, their value, and the text behind them; `none` at a fifth digit.
hex_group : Text → ℕ → ℕ → Option (ℕ × ℕ × Text)
hex_group [] off acc = some (off, acc, [])
hex_group (c ∷ s) off acc = elim (hex_digit c) [
  | none ↦ some (off, acc, c ∷ s)
  | some d ↦ if ltb 3 off then none else hex_group s (off + 1) (acc * 16 + d)
]

-- The bytes read so far, and at which of them the "::" stood.
abbrev Parsed : Type 0
Parsed = Ip × Option ℕ

abbrev zeros : ℕ → Ip
zeros zero = []
zeros (suc n) = 0 ∷ zeros n

abbrev split_at : ℕ → Ip → Ip × Ip
split_at zero ip = ([], ip)
split_at (suc n) [] = ([], [])
split_at (suc n) (b ∷ ip) = let (front, back) = split_at n ip in (b ∷ front, back)

-- Behind the loop: an ellipsis stands for the bytes that are missing, and for one group at least.
expand : Ip → Option ℕ → Option Ip
expand ip none = if length ip == 16 then some ip else none
expand ip (some at) =
    if ltb (length ip) 16
    then (let (front, back) = split_at at ip in some (front ++ (zeros (16 - length ip) ++ back)))
    else none

abbrev is_none {ℓ} : {A : Type ℓ} → Option A → Bool
is_none none = true
is_none (some a) = false

abbrev with_v4 : Ip → Option ℕ → Option Ip → Option Ip
with_v4 ip ellipsis none = none
with_v4 ip ellipsis (some v4) = expand (ip ++ v4) ellipsis

-- Where trailing dotted decimal is refused: not behind six groups, or no room for it.
abbrev v4_misplaced : Ip → Option ℕ → Bool
v4_misplaced ip ellipsis = (is_none ellipsis && not (length ip == 12)) || ltb 16 (length ip + 4)

-- A round of the loop reads a group of two bytes, so eight rounds read sixteen: `rounds` is what
-- the loop's test `i < 16` leaves. Text behind the last round is refused.
v6_groups : ℕ → Text → Ip → Option ℕ → Option Ip
v6_groups zero s ip ellipsis = if is_empty s then expand ip ellipsis else none
v6_groups (suc rounds) s ip ellipsis = elim (hex_group s 0 0) [
  | none ↦ none
  | some (zero, acc, rest) ↦ none
  | some (suc off, acc, []) ↦ expand (ip ++ (acc / 256) ∷ (acc % 256) ∷ []) ellipsis
  | some (suc off, acc, c ∷ []) ↦
      if c == b'.' && not (v4_misplaced ip ellipsis) then with_v4 ip ellipsis (parse_v4 s) else none
  | some (suc off, acc, c ∷ b ∷ more) ↦
      let ip' = ip ++ (acc / 256) ∷ (acc % 256) ∷ [] in
      let plain = v6_groups rounds (b ∷ more) ip' ellipsis in
      let behind = v6_groups rounds more ip' (some (length ip')) in
      if c == b'.'
      then (if v4_misplaced ip ellipsis then none else with_v4 ip ellipsis (parse_v4 s))
      else if not (c == b':')
      then none
      else if not (b == b':')
      then plain
      else if not (is_none ellipsis)
      then none
      else if is_empty more
      then expand ip' (some (length ip'))
      else behind
]

-- A text that starts with "::" has its ellipsis in front.
unfoldable pub parse_v6 : Text → Option Ip
unfolding v6_groups hex_group expand parse_v4
parse_v6 (a ∷ b ∷ s) =
    if a == b':' && b == b':'
    then (if is_empty s then some (zeros 16) else v6_groups 8 s [] (some 0))
    else v6_groups 8 (a ∷ b ∷ s) [] none
parse_v6 s = v6_groups 8 s [] none
