-- ===== src/Orders.antt =====
-- src/modules/orders: the order state machine and the operations of the order service.
pub mod StateMachine
pub mod Moved
pub mod WasherStatus
pub mod DriverStatus
pub mod Cancel
pub mod Reads
pub mod Create
pub mod Pages
