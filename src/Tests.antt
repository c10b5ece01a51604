-- ===== src/Tests.antt =====
-- Concrete orders, members and requests, and runs of the services on them.
pub mod Fixture
pub mod Statuses
pub mod Moves
pub mod Money
pub mod Webhooks
pub mod Outbox
pub mod Codes
pub mod Guards
pub mod Sessions
pub mod Rights
pub mod Invitations
pub mod Creation
pub mod System
