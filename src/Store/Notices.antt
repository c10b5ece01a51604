-- ===== src/Store/Notices.antt =====
-- The notifications of src/modules/orders/order.service.js: jobs for the notification queue.
use maghsul_backend.Base.{
  ℕ, Bool, true, false, ◌&&◌, none, some, List, [], ◌∷◌, ◌++◌, ◌==◌, find, select, map, String,
}
use maghsul_backend.Orders.StateMachine.{
  Role, washer_owner, washer_manager, branch_manager, worker, driver, customer,
}
use maghsul_backend.Store.{Store, Order, Notice, StaffMembership, is_active}

abbrev is_washer_team : Role → Bool
is_washer_team washer_owner = true
is_washer_team washer_manager = true
is_washer_team branch_manager = true
is_washer_team worker = true
is_washer_team _ = false

abbrev pub add_notices : List Notice → Store → Store
add_notices ns s = record s { notices = s.notices ++ ns }

-- `notifyCustomer`
unfoldable pub notify_customer : Order → String → Store → Store
notify_customer o type s = elim (find (λ m. m.id == o.customer_membership_id) s.customers) [
  | none ↦ s
  | some m ↦
      add_notices
        (record { user_id = m.identity_id; order_id = o.id; role = customer; type = type } ∷ []) s
]

-- `notifyDriver`: an identifier that is no membership is taken for the user's.
unfoldable pub notify_driver : Order → String → Store → Store
notify_driver o type s = elim o.driver_staff_membership_id [
  | none ↦ s
  | some d ↦ elim (find (λ m. m.id == d) s.staff) [
    | none ↦
        add_notices (record { user_id = d; order_id = o.id; role = driver; type = type } ∷ []) s
    | some m ↦
        add_notices
          (record { user_id = m.identity_id; order_id = o.id; role = driver; type = type } ∷ []) s
  ]
]

abbrev team_of : ℕ → StaffMembership → Bool
team_of w m = m.washer_id == w && is_washer_team m.role && is_active m.status

-- `notifyWasher`
unfoldable pub notify_washer : Order → String → Store → Store
notify_washer o type s =
    add_notices
      (map (λ m. record { user_id = m.identity_id; order_id = o.id; role = m.role; type = type })
        (select (team_of o.washer_id) s.staff))
      s
