-- ===== src/Name.antt =====
-- Domain names in the cache: normalizeDomain and the zone test of ReplaceFromSnapshot and Update
-- (cache.go).
pub mod Normal
pub mod Zone
use elchi_gslb.Prelude.{Bool, ◌++◌, ◌&&◌, not, ◌==◌, list_eq, nat_eq, list_eqb, if◌then◌else◌}
use elchi_gslb.Text.{Text, text, to_lower, trim_space, has_suffix, lower_char}

abbrev pub dot : Text
dot = text "."

unfoldable pub normalize_domain : Text → Text
unfolding trim_space lower_char has_suffix
normalize_domain domain =
    let normalized = to_lower (trim_space domain) in
    if has_suffix normalized dot then normalized else normalized ++ dot

-- The records that the two loops over records skip first.
unfoldable pub outside_zone : Text → Text → Bool
unfolding has_suffix list_eqb
outside_zone zone domain = not (has_suffix domain zone) && not (domain == zone)
