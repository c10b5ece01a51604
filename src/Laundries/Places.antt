-- ===== src/Laundries/Places.antt =====
-- src/modules/washers/coverage.service.js: the places of an order and the area of a laundry. A
-- coordinate is an integer in the unit of the place's precision; the distance of two points, which is
-- computed in floating point, and the test of a polygon are given (`Geometry`).
use maghsul_backend.Base.{
  ℕ, zero, suc, ℤ, pos, negsuc, ltb_ℤ, Bool, true, false, not, ◌&&◌, ◌||◌, Option, none, some, ltb,
  get_or, if◌then◌else◌, Result, ok, err, api_error,
}

pub record Point : Type 0 where
  pub lat : ℤ
  pub lng : ℤ

-- `haversineDistance` in metres, and `isPointInPolygon` with the zone's `geoJson`.
pub record Geometry : Type 0 where
  pub distance : Point → Point → ℕ
  pub in_polygon : Point → ℕ → Bool

-- `x >= low && x <= high`
abbrev pub is_between : ℤ → ℤ → ℤ → Bool
is_between low high x = not (ltb_ℤ x low) && not (ltb_ℤ high x)

-- A point of two columns that may be null.
abbrev pub point_of : Option ℤ → Option ℤ → Option Point
point_of (some a) (some b) = some (record { lat = a; lng = b })
point_of _ _ = none

abbrev pub default_radius : ℕ
default_radius = 1500

-- A coordinate of a request: `undefined`, `null`, no number, or a number.
pub data Coordinate : Type 0 where
  undefined null_value not_a_number : Coordinate
  number : ℤ → Coordinate

pub record Place : Type 0 where
  pub lat : Coordinate
  pub lng : Coordinate

-- The degrees of latitude and longitude that there are, in the unit of the coordinates.
pub record Limits : Type 0 where
  pub degrees_90 : ℕ
  pub degrees_180 : ℕ

abbrev pub minus : ℕ → ℤ
minus zero = pos 0
minus (suc n) = negsuc n

abbrev pub invalid_coordinates : Result Point
invalid_coordinates = err (api_error 400 "invalid_coordinates")

-- `validateCoordinates`
unfoldable pub validate_coordinates : Limits → Coordinate → Coordinate → Result Point
validate_coordinates limits (number a) (number b) =
    if is_between (minus limits.degrees_90) (pos limits.degrees_90) a
      && is_between (minus limits.degrees_180) (pos limits.degrees_180) b
    then ok (record { lat = a; lng = b })
    else invalid_coordinates
validate_coordinates limits _ _ = invalid_coordinates

-- The text of the service type once it is trimmed and in lower case.
pub data ServiceType : Type 0 where
  piece quantity other_service : ServiceType

pub record Mapped : Type 0 where
  pub pickup : Point
  pub delivery : Option Point

abbrev pub is_undefined : Coordinate → Bool
is_undefined undefined = true
is_undefined _ = false

abbrev pub both_points : Result Point → Result Point → Result Mapped
both_points (ok p) (ok d) = ok (record { pickup = p; delivery = some d })
both_points (ok p) (err e) = err e
both_points (err e) _ = err e

abbrev pub pickup_only : Result Point → Result Mapped
pickup_only (ok p) = ok (record { pickup = p; delivery = none })
pickup_only (err e) = err e

-- `mapRequiredCoordinatesByServiceType`
unfoldable pub map_required_coordinates :
    Limits → ServiceType → Option Place → Option Place → Result Mapped
map_required_coordinates limits other_service pickup delivery =
    err (api_error 400 "invalid_service_type")
map_required_coordinates limits piece (some p) (some d) =
    both_points (validate_coordinates limits p.lat p.lng) (validate_coordinates limits d.lat d.lng)
map_required_coordinates limits piece _ _ = err (api_error 400 "invalid_coordinates")
map_required_coordinates limits quantity none delivery = err (api_error 400 "invalid_coordinates")
map_required_coordinates limits quantity (some p) none =
    pickup_only (validate_coordinates limits p.lat p.lng)
map_required_coordinates limits quantity (some p) (some d) =
    if is_undefined d.lat || is_undefined d.lng
    then pickup_only (validate_coordinates limits p.lat p.lng)
    else both_points (validate_coordinates limits p.lat p.lng)
        (validate_coordinates limits d.lat d.lng)

abbrev pub is_beyond : Geometry → Point → ℕ → Option Point → Bool
is_beyond g centre radius none = false
is_beyond g centre radius (some p) = ltb radius (g.distance p centre)

pub record CoverageWasher : Type 0 where
  pub service_lat : Option ℤ
  pub service_lng : Option ℤ
  pub service_radius_meters : Option ℕ

-- `validateWasherCoverage`, as a test: a laundry without a place of its own leaves it to the branches.
abbrev pub is_in_washer_area : Geometry → Option Point → Option ℕ → Point → Option Point → Bool
is_in_washer_area g none radius pickup delivery = true
is_in_washer_area g (some centre) radius pickup delivery =
    not (is_beyond g centre (get_or radius default_radius) (some pickup))
    && not (is_beyond g centre (get_or radius default_radius) delivery)

abbrev pub validate_washer_coverage : Geometry → CoverageWasher → Point → Option Point → Bool
validate_washer_coverage g w pickup delivery =
    is_in_washer_area g (point_of w.service_lat w.service_lng) w.service_radius_meters pickup
      delivery
