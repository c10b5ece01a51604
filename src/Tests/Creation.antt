-- ===== src/Tests/Creation.antt =====
-- A branch with a circle, a request for it, a list of orders, and the theorems at them.
use maghsul_backend.Base.{
  ℕ, ◌≡◌, refl, pos, true, false, Option, some, none, [], ◌∷◌, Outcome, done, final_state, ok,
  arith, List, ◌==◌, find, select,
}
use maghsul_backend.Orders.StateMachine.{pending_pickup}
use maghsul_backend.Store.{
  Store, Order, online, unpaid, find_order, find_customer, cash_on_delivery, active,
  CustomerMembership,
}
use maghsul_backend.Store.Realtime.{safe_create_event, key_eq, event_matches}
use maghsul_backend.Store.Notices.{notify_customer, notify_washer}
use maghsul_backend.Laundries.Places.{
  Point, Geometry, Place, number, piece, Mapped, map_required_coordinates, validate_coordinates,
}
use maghsul_backend.Laundries.Coverage.{
  Zone, inclusion, circle, CoverageBranch, is_point_in_zone, evaluate_branch_coverage,
  evaluate_inclusions, match_zones, match_zone,
}
use maghsul_backend.Laundries.Covered.{covers, evaluate_branch_coverage_lem}
use maghsul_backend.Orders.Create.Tables.{
  WasherRow, Shop, Customer, OrderRequest, OrderContent, Surroundings, has_washer_row,
}
use maghsul_backend.Orders.Create.{
  create_order, order_writes, order_of_member, select_branch, find_membership, submit_order,
  create_writes, place_order, insert_order, announce_order, notify_created, new_order, content_of,
}
use maghsul_backend.Orders.Create.Answer.{Submitted, create_order_done}
use maghsul_backend.Orders.Create.Numbers.{IsNumbered, distinct, create_writes-IsNumbered}
use maghsul_backend.Orders.Create.Once.{answer_of, create_order_once}
use maghsul_backend.Orders.Create.Grown.{create_orders}
use maghsul_backend.Orders.Create.Writes.{Selected}
use maghsul_backend.Orders.Pages.{is_order_of}
use maghsul_backend.Orders.Pages.Walks.{distinct_ids}
use maghsul_backend.Orders.Pages.Client.{walk_my_orders, walk_my_orders_all}
use mathlib.Core.List.{reverse}
use maghsul_backend.Tests.Fixture.{order_one, tables, env_one, env_two}

-- Every two points are a kilometre apart.
abbrev flat : Geometry
flat = record { distance = λ a b. 1000; in_polygon = λ p z. false }

abbrev place_one : Place
place_one = record { lat = number (pos 247); lng = number (pos 466) }

abbrev point_one : Point
point_one = record { lat = pos 247; lng = pos 466 }

abbrev zone_one : Zone
zone_one = record {
  id = 1;
  zone_type = inclusion;
  coverage_type = circle;
  bb_min_lat = none;
  bb_max_lat = none;
  bb_min_lng = none;
  bb_max_lng = none;
  center_lat = some (pos 240);
  center_lng = some (pos 460);
  radius_meters = some 2000;
  is_active = true;
  priority = pos 0;
}

abbrev branch_one : CoverageBranch
branch_one = record {
  id = 4;
  washer_id = 3;
  is_active = true;
  is_open = true;
  accepting_orders = true;
  lat = none;
  lng = none;
  zones = zone_one ∷ [];
}

evaluate_branch_coverage_lem_example :
    (evaluate_branch_coverage flat branch_one point_one none).is_covered
    ≡ covers flat branch_one point_one none
evaluate_branch_coverage_lem_example = evaluate_branch_coverage_lem flat branch_one point_one none

is_covered_one : covers flat branch_one point_one none ≡ true
unfolding is_point_in_zone
is_covered_one = refl

-- Order 1 of the laundry has the number 12.
abbrev shop_one : Shop
shop_one = record {
  store = tables (order_one pending_pickup online unpaid none);
  washers =
      record {
        id = 3;
        is_active = true;
        next_order_sequence = 12;
        area = record { service_lat = none; service_lng = none; service_radius_meters = none };
      }
      ∷ [];
  branches = branch_one ∷ [];
  keys = [];
}

abbrev surroundings_one : Surroundings
surroundings_one = record {
  geometry = flat;
  limits = record { degrees_90 = 900; degrees_180 = 1800 };
  geocode = λ p. none;
  hash = λ c. c.details;
  random_key = 5;
  env = env_one;
}

abbrev customer_one : Customer
customer_one = record { washer_id = some 3; identity_id = 50 }

abbrev request_one : OrderRequest
request_one = record {
  branch_id = some 4;
  pickup = some place_one;
  delivery = some place_one;
  payment_method = none;
  service_type = piece;
  details = 17;
  idempotency_key = some 9;
}

abbrev ordered : Outcome Shop (Option Order)
ordered = create_order surroundings_one customer_one request_one shop_one

abbrev order_twenty : Order
order_twenty = record (order_one pending_pickup cash_on_delivery unpaid none) {
  id = 20;
  public_number = 13;
  subtotal = 0;
  delivery_fee = 0;
  total_price = 0;
}

ordered_runs : ordered ≡ done (some order_twenty) (final_state ordered)
unfolding create_order map_required_coordinates validate_coordinates order_writes order_of_member
    select_branch evaluate_branch_coverage evaluate_inclusions match_zones match_zone
    is_point_in_zone find_membership submit_order create_writes place_order insert_order
    announce_order safe_create_event key_eq event_matches notify_customer notify_washer
ordered_runs = refl

create_order_done_example :
    (places : Mapped) × (washer_id : ℕ) × (o : Order) × (s1 : Shop) × (map_required_coordinates
        surroundings_one.limits piece
        (some place_one)
        (some place_one)
      ≡ ok places)
    × (some 3 ≡ some washer_id)
    × Submitted surroundings_one customer_one request_one places washer_id shop_one o s1
    × (final_state ordered ≡ record s1 { store = notify_created o s1.store })
    × (some order_twenty ≡ find_order o.id s1.store)
create_order_done_example =
    create_order_done surroundings_one customer_one request_one shop_one (some order_twenty)
      (final_state ordered) ordered_runs

shop_one-IsNumbered : IsNumbered shop_one
unfolding distinct
shop_one-IsNumbered = record { counted = (λ w e. ground arith, tt); unique = refl }

abbrev content_one : OrderContent
content_one = record {
  customer_membership_id = 5;
  washer_id = 3;
  branch_id = 4;
  pickup = point_one;
  pickup_address = none;
  delivery = point_one;
  delivery_address = none;
  payment_method = cash_on_delivery;
  service_type = piece;
  details = 17;
  by_user_id = 50;
}

abbrev washer_three : ℕ → WasherRow
washer_three n = record {
  id = 3;
  is_active = true;
  next_order_sequence = n;
  area = record { service_lat = none; service_lng = none; service_radius_meters = none };
}

create_writes-IsNumbered_example :
    (s' : Shop) × (create_writes content_one 9 17 env_one shop_one
      ≡ done (new_order content_one 13 env_one) s')
    × IsNumbered s'
    × (find (has_washer_row 3) s'.washers ≡ some (washer_three 13))
create_writes-IsNumbered_example =
    create_writes-IsNumbered content_one 9 17 env_one shop_one (washer_three 12) shop_one-IsNumbered
      refl refl refl refl

-- The same key for another order, behind a call with a further key.
abbrev other_request : OrderRequest
other_request = record request_one { details = 18 }

abbrev later_surroundings : Surroundings
later_surroundings = record surroundings_one { env = env_two }

abbrev between : List (Surroundings × Customer × OrderRequest)
between = (later_surroundings, customer_one, record request_one { idempotency_key = some 10 }) ∷ []

abbrev placed_one : Mapped
placed_one = record { pickup = point_one; delivery = some point_one }

abbrev chosen_at : Shop → Outcome Shop CoverageBranch
chosen_at s = select_branch flat 3 (some 4) placed_one s

between_runs :
    chosen_at (create_orders between (final_state ordered))
    ≡ done branch_one (create_orders between (final_state ordered))
unfolding create_orders create_order map_required_coordinates validate_coordinates order_writes
    order_of_member select_branch evaluate_branch_coverage evaluate_inclusions match_zones
    match_zone is_point_in_zone find_membership submit_order create_writes place_order insert_order
    announce_order safe_create_event key_eq event_matches notify_customer notify_washer
between_runs = refl

places_one :
    map_required_coordinates surroundings_one.limits piece (some place_one) (some place_one)
    ≡ ok placed_one
unfolding map_required_coordinates validate_coordinates
places_one = refl

create_order_once_example :
    (o : Order) × (places : Mapped) × (branch : CoverageBranch) × (m : CustomerMembership) × (some
        order_twenty
      ≡ some o)
    × (map_required_coordinates surroundings_one.limits piece (some place_one) (some place_one)
        ≡ ok places)
    × Selected flat 3 places (some 4) shop_one branch
    × (find_customer 50 (some 3) shop_one.store ≡ some m)
    × (create_order later_surroundings customer_one other_request
          (create_orders between (final_state ordered))
        ≡ answer_of
            (surroundings_one.hash
                (content_of surroundings_one customer_one request_one places 3 branch m)
              == later_surroundings.hash (
                  content_of later_surroundings customer_one other_request placed_one 3 branch_one
                    m))
            o
            (create_orders between (final_state ordered)))
create_order_once_example =
    create_order_once between surroundings_one later_surroundings customer_one request_one
      other_request 9 3 shop_one (some order_twenty) (final_state ordered) placed_one branch_one
      ordered_runs refl refl refl places_one between_runs

-- Three orders of a customer, two on a page.
abbrev three_orders : List Order
three_orders = order_twenty ∷ record order_twenty { id = 21 } ∷ record order_twenty { id = 22 } ∷ []

three_orders_distinct : distinct_ids three_orders ≡ true
unfolding distinct_ids
three_orders_distinct = refl

abbrev with_three : Store
with_three = record shop_one.store { orders = three_orders }

walk_my_orders_all_example :
    walk_my_orders 4 (some 3) 50 2 none with_three
    ≡ ok (reverse (select (is_order_of 5) three_orders))
walk_my_orders_all_example =
    walk_my_orders_all 2 3 50 with_three
      (record { id = 5; identity_id = 50; washer_id = 3; status = active }) (ground arith)
      (ground arith) three_orders_distinct refl
