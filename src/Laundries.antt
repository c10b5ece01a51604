-- ===== src/Laundries.antt =====
-- The laundries and the places that they serve: src/modules/washers.
pub mod Places
pub mod Coverage
pub mod Covered
