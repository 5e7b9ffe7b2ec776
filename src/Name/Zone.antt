-- ===== src/Name/Zone.antt =====
-- Which names the zone test of ReplaceFromSnapshot and Update (cache.go) lets through.
use elchi_gslb.Prelude.{
  ◌≡◌, refl, ◌∙◌, true, false, not, ◌&&◌, [], ◌++◌, ◌==◌, list_eq, nat_eq, list_eqb_iff, arith, ◌↔◌,
}
use elchi_gslb.Text.{Text, has_suffix}
use elchi_gslb.Text.Suffix.{has_suffix_iff, has_suffix-append}
use elchi_gslb.Name.{outside_zone}

outside_zone_lem :
    (zone d : Text) → outside_zone zone d ≡ (not (has_suffix d zone) && not (d == zone))
unfolding outside_zone
outside_zone_lem zone d = refl

inside_of_suffix : (zone d : Text) → has_suffix d zone ≡ true → outside_zone zone d ≡ false
inside_of_suffix zone d h = outside_zone_lem zone d ∙ rw h

suffix_of_inside : (zone d : Text) → outside_zone zone d ≡ false → has_suffix d zone ≡ true
suffix_of_inside zone d h =
    ground (arith, outside_zone_lem zone d, list_eqb_iff d zone, has_suffix-append [] zone)

-- A name passes the zone test exactly when it is some text followed by the zone's name, whether or
-- not that text ends a label.
pub outside_zone_iff :
    (zone d : Text) → (outside_zone zone d ≡ false) ↔ ((p : Text) × (d ≡ p ++ zone))
outside_zone_iff zone d = (
  λ h. (has_suffix_iff d zone).0 (suffix_of_inside zone d h),
  λ h. inside_of_suffix zone d ((has_suffix_iff d zone).1 h),
)
