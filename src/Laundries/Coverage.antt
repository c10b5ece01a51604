-- ===== src/Laundries/Coverage.antt =====
-- src/modules/washers/coverage.service.js: the zones of a branch and what it covers.
use maghsul_backend.Base.{
  ℕ, ℤ, pos, negsuc, ltb_ℤ, Bool, true, false, not, ◌&&◌, ◌||◌, Option, none, some, List, [], ◌∷◌,
  ltb, is_some, get_or, if◌then◌else◌, select, any,
}
use maghsul_backend.Laundries.Places.{Point, Geometry, is_between, point_of, default_radius}

pub data ZoneType : Type 0 where
  inclusion exclusion : ZoneType

pub data CoverageShape : Type 0 where
  circle polygon multi_polygon : CoverageShape

pub record Zone : Type 0 where
  pub id : ℕ
  pub zone_type : ZoneType
  pub coverage_type : CoverageShape
  pub bb_min_lat : Option ℤ
  pub bb_max_lat : Option ℤ
  pub bb_min_lng : Option ℤ
  pub bb_max_lng : Option ℤ
  pub center_lat : Option ℤ
  pub center_lng : Option ℤ
  pub radius_meters : Option ℕ
  pub is_active : Bool
  pub priority : ℤ

pub record CoverageBranch : Type 0 where
  pub id : ℕ
  pub washer_id : ℕ
  pub is_active : Bool
  pub is_open : Bool
  pub accepting_orders : Bool
  pub lat : Option ℤ
  pub lng : Option ℤ
  pub zones : List Zone

-- `isPointInBoundingBox`: a box that is not complete holds every point.
abbrev pub in_bounding_box : Point → Option ℤ → Option ℤ → Option ℤ → Option ℤ → Bool
in_bounding_box p (some a) (some b) (some c) (some d) = is_between a b p.lat && is_between c d p.lng
in_bounding_box p _ _ _ _ = true

abbrev pub is_within : Geometry → Point → Option Point → Option ℕ → Bool
is_within g p none radius = false
is_within g p (some c) radius = not (ltb (get_or radius default_radius) (g.distance p c))

abbrev pub in_shape : Geometry → Point → Zone → CoverageShape → Bool
in_shape g p z circle = is_within g p (point_of z.center_lat z.center_lng) z.radius_meters
in_shape g p z polygon = g.in_polygon p z.id
in_shape g p z multi_polygon = g.in_polygon p z.id

-- `isPointInZone`
unfoldable pub is_point_in_zone : Geometry → Point → Zone → Bool
is_point_in_zone g p z =
    z.is_active
    && in_bounding_box p z.bb_min_lat z.bb_max_lat z.bb_min_lng z.bb_max_lng
    && in_shape g p z z.coverage_type

-- `delivery ? isPointInZone(…) : missing`
abbrev pub delivered_in : Geometry → Option Point → Bool → Zone → Bool
delivered_in g none missing z = missing
delivered_in g (some p) missing z = is_point_in_zone g p z

-- What `evaluateBranchCoverage` answers; an infinite distance is none.
pub record Evaluation : Type 0 where
  pub is_covered : Bool
  pub matched_zone_priority : ℤ
  pub pickup_distance : Option ℕ
  pub is_conflict : Bool

abbrev pub not_covered : Bool → Evaluation
not_covered conflict = record {
  is_covered = false;
  matched_zone_priority = negsuc 0;
  pickup_distance = none;
  is_conflict = conflict;
}

abbrev pub is_inclusion : Zone → Bool
is_inclusion z = elim z.zone_type [ inclusion ↦ z.is_active | exclusion ↦ false ]

abbrev pub is_exclusion : Zone → Bool
is_exclusion z = elim z.zone_type [ inclusion ↦ false | exclusion ↦ z.is_active ]

abbrev pub is_circle : Zone → Bool
is_circle z = elim z.coverage_type [ circle ↦ true | polygon ↦ false | multi_polygon ↦ false ]

-- The variables of the loop over the inclusion zones.
pub record Match : Type 0 where
  pub pickup_covered : Bool
  pub delivery_covered : Bool
  pub priority : ℤ
  pub center_lat : Option ℤ
  pub center_lng : Option ℤ

abbrev pub max_ℤ : ℤ → ℤ → ℤ
max_ℤ a b = if ltb_ℤ a b then b else a

-- A zone that holds both places and whose priority is not below.
abbrev pub take_zone : Zone → Match → Match
take_zone z m =
    if is_some z.center_lat
    then record m { priority = z.priority; center_lat = z.center_lat; center_lng = z.center_lng }
    else record m { priority = z.priority }

unfoldable pub match_zone : Geometry → Point → Option Point → Zone → Match → Match
match_zone g pickup delivery z m =
    let p = is_point_in_zone g pickup z in
    let d = delivered_in g delivery true z in
    if p && d
    then (let m' = record m { pickup_covered = true; delivery_covered = true } in
        if ltb_ℤ z.priority m.priority then m' else take_zone z m')
    else record m {
      pickup_covered = m.pickup_covered || p;
      delivery_covered = m.delivery_covered || d;
      priority = max_ℤ m.priority z.priority;
    }

unfoldable pub match_zones : Geometry → Point → Option Point → List Zone → Match → Match
match_zones g pickup delivery [] m = m
match_zones g pickup delivery (z ∷ zs) m =
    match_zones g pickup delivery zs (match_zone g pickup delivery z m)

-- `const refLat = zoneCenterLat ?? pickup.lat`, and the answer behind the loop.
abbrev pub answer_match : Geometry → Point → Match → Evaluation
answer_match g pickup m =
    if m.pickup_covered && m.delivery_covered
    then record {
      is_covered = true;
      matched_zone_priority = m.priority;
      pickup_distance = some (
          g.distance pickup (record {
            lat = get_or m.center_lat pickup.lat;
            lng = get_or m.center_lng pickup.lng;
          }));
      is_conflict = false;
    }
    else not_covered false

-- The part behind the exclusions. Without an inclusion zone nothing is covered.
unfoldable pub evaluate_inclusions :
    Geometry → CoverageBranch → List Zone → Point → Option Point → Evaluation
evaluate_inclusions g b [] pickup delivery = not_covered false
evaluate_inclusions g b (z ∷ zs) pickup delivery = answer_match g pickup (
    match_zones g pickup delivery (z ∷ zs) (record {
      pickup_covered = false;
      delivery_covered = not (is_some delivery);
      priority = pos 0;
      center_lat = b.lat;
      center_lng = b.lng;
    }))

abbrev pub is_excluded : Geometry → Point → Option Point → Zone → Bool
is_excluded g pickup delivery z = is_point_in_zone g pickup z || delivered_in g delivery false z

-- `evaluateBranchCoverage` of a branch and its zones.
unfoldable pub evaluate_branch_coverage :
    Geometry → CoverageBranch → Point → Option Point → Evaluation
evaluate_branch_coverage g b pickup delivery =
    let inclusions = select is_inclusion b.zones in
    if not (b.is_active && b.is_open && b.accepting_orders)
    then not_covered false
    else if any (is_excluded g pickup delivery) (select is_exclusion b.zones)
    then not_covered false
    else if any is_circle inclusions && any (λ z. not (is_circle z)) inclusions
    then not_covered true
    else evaluate_inclusions g b inclusions pickup delivery
