-- ===== src/Ip/Print.antt =====
-- Dotted decimal and hexadecimal groups: Go's IP.String.
use elchi_gslb.Prelude.{
  ℕ, zero, suc, ◌+◌, ◌*◌, ◌-◌, ◌/◌, ◌%◌, ◌&&◌, ◌||◌, List, [], ◌∷◌, ◌++◌, leb, ltb, ◌==◌, nat_eq,
  list_eq, list_eqb, if◌then◌else◌,
}
use elchi_gslb.Text.{Text, text}
use elchi_gslb.Ip.V4.{Ip, mapped_prefix}

-- A byte in decimal.
unfoldable pub byte_text : ℕ → Text
byte_text n =
    if ltb n 10
    then (n + b'0') ∷ []
    else if ltb n 100
    then (n / 10 + b'0') ∷ (n % 10 + b'0') ∷ []
    else (n / 100 + b'0') ∷ (n / 10 % 10 + b'0') ∷ (n % 10 + b'0') ∷ []

unfoldable pub v4_text : ℕ → ℕ → ℕ → ℕ → Text
unfolding byte_text
v4_text a b c d =
    byte_text a ++ (b'.' ∷ (byte_text b ++ (b'.' ∷ (byte_text c ++ (b'.' ∷ byte_text d)))))

abbrev hex_char : ℕ → ℕ
hex_char d = if ltb d 10 then d + b'0' else d - 10 + b'a'

-- A group in hexadecimal, without leading zeros.
hex_text : ℕ → Text
hex_text n =
    let ones = hex_char (n % 16) ∷ [] in
    let tens = hex_char (n / 16 % 16) ∷ ones in
    let hundreds = hex_char (n / 256 % 16) ∷ tens in
    if ltb n 16
    then ones
    else if ltb n 256
    then tens
    else if ltb n 4096
    then hundreds
    else hex_char (n / 4096) ∷ hundreds

groups : Ip → List ℕ
groups [] = []
groups (hi ∷ []) = []
groups (hi ∷ lo ∷ ip) = (hi * 256 + lo) ∷ groups ip

zero_run : List ℕ → ℕ
zero_run [] = 0
zero_run (g ∷ gs) = let more = zero_run gs in if g == 0 then suc more else 0

-- The first longest run of at least two zero groups: where it starts, and its length. `best` is
-- what the loop has found before the groups at hand, which start at `i`.
longest_run : ℕ → List ℕ → ℕ × ℕ → ℕ × ℕ
longest_run i [] best = best
longest_run i (g ∷ gs) (start, len) =
    let here = zero_run (g ∷ gs) in
    longest_run (i + 1) gs (if leb 2 here && ltb len here then (i, here) else (start, len))

-- `skip` counts the groups of the run that are still to be passed over.
v6_text : ℕ → ℕ × ℕ → ℕ → List ℕ → Text
v6_text i run skip [] = []
v6_text i (start, len) (suc skip) (g ∷ gs) = v6_text (i + 1) (start, len) skip gs
v6_text i (start, len) zero (g ∷ gs) =
    let in_run = v6_text (i + 1) (start, len) (len - 1) gs in
    let plain = v6_text (i + 1) (start, len) 0 gs in
    let after_run = i == start + len && ltb 0 len in
    if i == start && ltb 0 len
    then b':' ∷ b':' ∷ in_run
    else if i == 0 || after_run
    then hex_text g ++ plain
    else b':' ∷ (hex_text g ++ plain)

-- IP.String at 4 or 16 bytes.
unfoldable pub ip_string : Ip → Text
unfolding v4_text v6_text hex_text longest_run zero_run groups list_eqb
ip_string (a ∷ b ∷ c ∷ d ∷ []) = v4_text a b c d
ip_string (z0 ∷ z1 ∷ z2 ∷ z3 ∷ z4 ∷ z5 ∷ z6 ∷ z7 ∷ z8 ∷ z9 ∷ f0 ∷ f1 ∷ a ∷ b ∷ c ∷ d ∷ []) =
    let ip = z0 ∷ z1 ∷ z2 ∷ z3 ∷ z4 ∷ z5 ∷ z6 ∷ z7 ∷ z8 ∷ z9 ∷ f0 ∷ f1 ∷ a ∷ b ∷ c ∷ d ∷ [] in
    if ((z0 ∷ z1 ∷ z2 ∷ z3 ∷ z4 ∷ z5 ∷ z6 ∷ z7 ∷ z8 ∷ z9 ∷ f0 ∷ f1 ∷ []) == mapped_prefix)
    then v4_text a b c d
    else v6_text 0 (longest_run 0 (groups ip) (0, 0)) 0 (groups ip)
ip_string ip = text "?"
