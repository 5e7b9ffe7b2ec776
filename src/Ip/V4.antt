-- ===== src/Ip/V4.antt =====
-- Dotted decimal, the loop of Go's netip.parseIPv4Fields.
use elchi_gslb.Prelude.{
  ℕ, ◌+◌, ◌*◌, ◌-◌, Bool, ◌&&◌, ◌||◌, List, [], ◌∷◌, ◌++◌, Option, none, some, leb, ltb, ◌==◌,
  nat_eq, length, if◌then◌else◌,
}
use elchi_gslb.Text.{Text}

abbrev pub Ip : Type 0
Ip = List ℕ

abbrev pub is_digit : ℕ → Bool
is_digit c = leb b'0' c && leb c b'9'

-- `fields` are the octets read, `digits` and `val` those of the octet at hand.
unfoldable pub v4_fields : Text → Ip → ℕ → ℕ → Option Ip
v4_fields [] fields digits val =
    if length fields == 3 && ltb 0 digits then some (fields ++ val ∷ []) else none
v4_fields (c ∷ s) fields digits val =
    let digit = v4_fields s fields (digits + 1) (val * 10 + (c - b'0')) in
    let point = v4_fields s (fields ++ val ∷ []) 0 0 in
    if is_digit c
    then if (digits == 1 && val == 0) || ltb 255 (val * 10 + (c - b'0')) then none else digit
    else if c == b'.' && ltb 0 digits && ltb (length fields) 3
    then point
    else none

unfoldable pub parse_v4 : Text → Option Ip
unfolding v4_fields
parse_v4 s = v4_fields s [] 0 0

-- The first twelve bytes of an IPv4 address in its 16-byte form.
abbrev pub mapped_prefix : Ip
mapped_prefix = 0 ∷ 0 ∷ 0 ∷ 0 ∷ 0 ∷ 0 ∷ 0 ∷ 0 ∷ 0 ∷ 0 ∷ 255 ∷ 255 ∷ []

abbrev pub mapped : Option Ip → Option Ip
mapped none = none
mapped (some ip) = some (mapped_prefix ++ ip)
