-- ===== src/Laundries/Covered.antt =====
-- evaluateBranchCoverage of src/modules/washers/coverage.service.js against what a branch covers.
use maghsul_backend.Base.{
  pos, ◌≡◌, refl, Bool, true, false, not, ◌&&◌, ◌||◌, Option, List, [], ◌∷◌, is_some, select, any,
  arith,
}
use maghsul_backend.Laundries.Places.{Point, Geometry}
use maghsul_backend.Laundries.Coverage.{
  Zone, CoverageBranch, is_point_in_zone, delivered_in, Match, match_zone, match_zones,
  answer_match, evaluate_inclusions, is_excluded, is_inclusion, is_exclusion, is_circle,
  evaluate_branch_coverage,
}

-- What a branch covers, without a loop: it takes orders, no exclusion zone holds a place of the order,
-- its inclusion zones are all circles or all polygons, one of them holds the pickup, and one, not
-- necessarily the same, the delivery if there is one.
abbrev pub covers : Geometry → CoverageBranch → Point → Option Point → Bool
covers g b pickup delivery =
    let inclusions = select is_inclusion b.zones in
    b.is_active
    && b.is_open
    && b.accepting_orders
    && not (any (is_excluded g pickup delivery) (select is_exclusion b.zones))
    && not (any is_circle inclusions && any (λ z. not (is_circle z)) inclusions)
    && any (is_point_in_zone g pickup) inclusions
    && (not (is_some delivery) || any (delivered_in g delivery true) inclusions)

module _ (g : Geometry) (pickup : Point) (delivery : Option Point) where
  zone_pickup :
      (z : Zone) (m : Match)
      → (match_zone g pickup delivery z m).pickup_covered
        ≡ (m.pickup_covered || is_point_in_zone g pickup z)
  unfolding match_zone
  zone_pickup z m = ground arith

  zone_delivery :
      (z : Zone) (m : Match)
      → (match_zone g pickup delivery z m).delivery_covered
        ≡ (m.delivery_covered || delivered_in g delivery true z)
  unfolding match_zone
  zone_delivery z m = ground arith

  zones_pickup :
      (zs : List Zone) (m : Match)
      → (match_zones g pickup delivery zs m).pickup_covered
        ≡ (m.pickup_covered || any (is_point_in_zone g pickup) zs)
  unfolding match_zones
  zones_pickup [] m = ground arith
  zones_pickup (z ∷ zs) m =
      ground (arith, zones_pickup zs (match_zone g pickup delivery z m), zone_pickup z m)

  zones_delivery :
      (zs : List Zone) (m : Match)
      → (match_zones g pickup delivery zs m).delivery_covered
        ≡ (m.delivery_covered || any (delivered_in g delivery true) zs)
  unfolding match_zones
  zones_delivery [] m = ground arith
  zones_delivery (z ∷ zs) m =
      ground (arith, zones_delivery zs (match_zone g pickup delivery z m), zone_delivery z m)

  answer_covered :
      (m : Match) → (answer_match g pickup m).is_covered ≡ (m.pickup_covered && m.delivery_covered)
  answer_covered m = ground arith

  inclusions_covered :
      (b : CoverageBranch) (zs : List Zone)
      → (evaluate_inclusions g b zs pickup delivery).is_covered ≡ (
          any (is_point_in_zone g pickup) zs
          && (not (is_some delivery) || any (delivered_in g delivery true) zs))
  unfolding evaluate_inclusions
  inclusions_covered b [] = refl
  inclusions_covered b (z ∷ zs) =
      let m : Match = record {
        pickup_covered = false;
        delivery_covered = not (is_some delivery);
        priority = pos 0;
        center_lat = b.lat;
        center_lng = b.lng;
      } in
      rw
        (
          answer_covered (match_zones g pickup delivery (z ∷ zs) m),
          zones_pickup (z ∷ zs) m,
          zones_delivery (z ∷ zs) m,
        )
        refl

-- The loops of the evaluation against what a branch covers: it answers that both places are covered
-- exactly when the branch takes orders, no exclusion zone holds a place of the order, the inclusion
-- zones are not of both kinds, one of them holds the pickup and one the delivery, if there is one.
pub evaluate_branch_coverage_lem :
    (g : Geometry) (b : CoverageBranch) (pickup : Point) (delivery : Option Point)
    → (evaluate_branch_coverage g b pickup delivery).is_covered ≡ covers g b pickup delivery
unfolding evaluate_branch_coverage
evaluate_branch_coverage_lem g b pickup delivery =
    ground (arith, inclusions_covered g pickup delivery b (select is_inclusion b.zones))
