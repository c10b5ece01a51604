-- ===== src/Orders/Create/Tables.antt =====
-- The tables that createOrder of src/modules/orders/order.service.js reads and writes, and what a call
-- of it is given.
use maghsul_backend.Base.{ℕ, Bool, ◌&&◌, Option, List, ◌==◌, Outcome, done, thrown}
use maghsul_backend.Store.{Store, Env, PaymentMethod}
use maghsul_backend.Laundries.Places.{Point, Geometry, Limits, Place, ServiceType, CoverageWasher}
use maghsul_backend.Laundries.Coverage.{CoverageBranch}

pub record WasherRow : Type 0 where
  pub id : ℕ
  pub is_active : Bool
  pub next_order_sequence : ℕ
  pub area : CoverageWasher

pub record OrderKey : Type 0 where
  pub order_id : ℕ
  pub customer_membership_id : ℕ
  pub idempotency_key : ℕ
  pub content_hash : ℕ

pub record Shop : Type 0 where
  pub store : Store
  pub washers : List WasherRow
  pub branches : List CoverageBranch
  pub keys : List OrderKey

-- The `actorContext` and the `input`.
pub record Customer : Type 0 where
  pub washer_id : Option ℕ
  pub identity_id : ℕ

pub record OrderRequest : Type 0 where
  pub branch_id : Option ℕ
  pub pickup : Option Place
  pub delivery : Option Place
  pub payment_method : Option PaymentMethod
  pub service_type : ServiceType
  pub details : ℕ
  pub idempotency_key : Option ℕ

-- `orderData`, which the hash is taken of.
pub record OrderContent : Type 0 where
  pub customer_membership_id : ℕ
  pub washer_id : ℕ
  pub branch_id : ℕ
  pub pickup : Point
  pub pickup_address : Option ℕ
  pub delivery : Point
  pub delivery_address : Option ℕ
  pub payment_method : PaymentMethod
  pub service_type : ServiceType
  pub details : ℕ
  pub by_user_id : ℕ

-- What surrounds a call: the libraries, the other services and what is drawn.
pub record Surroundings : Type 0 where
  pub geometry : Geometry
  pub limits : Limits
  pub geocode : Point → Option ℕ
  pub hash : OrderContent → ℕ
  pub random_key : ℕ
  pub env : Env

abbrev pub has_washer_row : ℕ → WasherRow → Bool
has_washer_row i w = w.id == i

abbrev pub has_branch_row : ℕ → CoverageBranch → Bool
has_branch_row i b = b.id == i

-- `where: { washerId, status: 'active', acceptingOrders: true }`
abbrev pub is_serving : ℕ → CoverageBranch → Bool
is_serving w b = b.washer_id == w && b.is_active && b.accepting_orders

-- A step on the shared tables.
abbrev pub in_store : {A : Type 0} → (Store → Outcome Store A) → Shop → Outcome Shop A
in_store m s = elim (m s.store) [
  | done a t ↦ done a (record s { store = t })
  | thrown e t ↦ thrown e (record s { store = t })
]
