-- ===== src/Examples/Corefiles.antt =====
-- A Caddy controller (setup.go) over the lines of blocks.
use elchi_gslb.Prelude.{
  ℕ, zero, suc, ◌+◌, ◌≤◌, ◌<◌, subst, List, [], ◌∷◌, Option, none, some, length, ◌==◌, list_eq,
  nat_eq, if◌then◌else◌, arith,
}
use elchi_gslb.Text.{Text, text}
use elchi_gslb.Client.{done, failed}
use elchi_gslb.Setup.{Caddy, pos}

-- The blocks that are not begun, the rest of a line, and the lines after it; an empty line ends a block.
abbrev pub Lines : Type 0
Lines = ℕ × (List Text × List (List Text))

unfoldable pub total : List (List Text) → ℕ
total [] = 0
total (l ∷ ls) = length l + total ls

abbrev pub lines_left : Lines → ℕ
lines_left (n, (vs, ls)) = n + (length vs + total ls)

abbrev pub lines_next : Lines → Option Lines
lines_next (zero, s) = none
lines_next (suc n, s) = some (n, s)

abbrev pub lines_next_block : Lines → Option Text × Lines
lines_next_block (n, (v ∷ vs, ls)) = (some v, (n, (vs, ls)))
lines_next_block (n, ([], [])) = (none, (n, ([], [])))
lines_next_block (n, ([], [] ∷ ls)) = (none, (n, ([], ls)))
lines_next_block (n, ([], (v ∷ vs) ∷ ls)) = (some v, (n, (vs, ls)))

abbrev pub lines_next_arg : Lines → Option (Text × Lines)
lines_next_arg (n, (v ∷ vs, ls)) = some (v, (n, (vs, ls)))
lines_next_arg (n, ([], ls)) = none

-- How many tokens a call that finds one, or finds none, may leave.
abbrev Fewer : ℕ → Option Lines → Type 0
Fewer n none = Unit {0}
Fewer n (some c) = lines_left c < n

abbrev FewerToken : ℕ → Option Text × Lines → Type 0
FewerToken n (none, c) = lines_left c ≤ n
FewerToken n (some v, c) = lines_left c < n

abbrev FewerArg : ℕ → Option (Text × Lines) → Type 0
FewerArg n none = Unit {0}
FewerArg n (some (v, c)) = lines_left c < n

pub lines_next-Fewer : (c : Lines) → Fewer (lines_left c) (lines_next c)
lines_next-Fewer (zero, s) = tt
lines_next-Fewer (suc n, (vs, ls)) = omega arith

pub lines_next_block-FewerToken : (c : Lines) → FewerToken (lines_left c) (lines_next_block c)
unfolding total
lines_next_block-FewerToken (n, (w ∷ vs, ls)) = omega arith
lines_next_block-FewerToken (n, ([], [])) = omega arith
lines_next_block-FewerToken (n, ([], [] ∷ ls)) = omega arith
lines_next_block-FewerToken (n, ([], (w ∷ vs) ∷ ls)) = omega arith

pub lines_next_arg-FewerArg : (c : Lines) → FewerArg (lines_left c) (lines_next_arg c)
lines_next_arg-FewerArg (n, (w ∷ vs, ls)) = omega arith
lines_next_arg-FewerArg (n, ([], ls)) = tt

-- Zones are given in their final form, and one spelling of a minute is known.
abbrev pub lines : Caddy
lines = record {
  Controller = Lines;
  left = lines_left;
  next = lines_next;
  next_block = lines_next_block;
  next_arg = lines_next_arg;
  remaining_args = λ (n, (vs, ls)). (vs, (n, ([], ls)));
  normalize_exact = λ key. key ∷ [];
  parse_duration =
      λ v. if v == text "1m" then done (pos 60000000000) else failed (text "invalid duration");
  next-left = λ c c' e. subst (Fewer (lines_left c)) e (lines_next-Fewer c);
  next_block-left = λ c c' v e. subst (FewerToken (lines_left c)) e (lines_next_block-FewerToken c);
  next_block-left_end =
      λ c c' e. subst (FewerToken (lines_left c)) e (lines_next_block-FewerToken c);
  next_arg-left = λ c c' v e. subst (FewerArg (lines_left c)) e (lines_next_arg-FewerArg c);
  remaining_args-left = λ (n, (vs, ls)). omega arith;
}
