-- ===== src/Ip.antt =====
-- The part of Go's package net that cache.go calls: ParseIP, IP.To4 and IP.String.
-- An address is the list of its bytes, 4 or 16 of them.
mod V4
mod V6
mod Print
mod Tests
pub mod Round
unfoldable pub use V4.*
unfoldable pub use V6.*
unfoldable pub use Print.*
use elchi_gslb.Prelude.{
  ℕ, Bool, true, false, ◌&&◌, List, [], ◌∷◌, ◌++◌, Option, none, some, any, ◌==◌, nat_eq, list_eq,
  list_eqb, if◌then◌else◌,
}
use elchi_gslb.Text.{Text}

-- The first of '.' and ':' says which of the two syntaxes the text is in.
abbrev pub parse_at_mark : Text → Text → Option Ip
parse_at_mark s [] = none
parse_at_mark s (c ∷ rest) =
    let later = parse_at_mark s rest in
    if c == b'.' then mapped (parse_v4 s) else if c == b':' then parse_v6 s else later

-- net.ParseIP: 16 bytes, an IPv4 address in its mapped form. A zone is refused.
unfoldable pub parse_ip : Text → Option Ip
unfolding parse_v4 parse_v6
parse_ip s = if any (λ c. c == b'%') s then none else parse_at_mark s s

-- IP.To4
unfoldable pub to_4 : Ip → Option Ip
unfolding list_eqb
to_4 (a ∷ b ∷ c ∷ d ∷ []) = some (a ∷ b ∷ c ∷ d ∷ [])
to_4 (z0 ∷ z1 ∷ z2 ∷ z3 ∷ z4 ∷ z5 ∷ z6 ∷ z7 ∷ z8 ∷ z9 ∷ f0 ∷ f1 ∷ a ∷ b ∷ c ∷ d ∷ []) =
    if ((z0 ∷ z1 ∷ z2 ∷ z3 ∷ z4 ∷ z5 ∷ z6 ∷ z7 ∷ z8 ∷ z9 ∷ f0 ∷ f1 ∷ []) == mapped_prefix)
    then some (a ∷ b ∷ c ∷ d ∷ [])
    else none
to_4 _ = none
