-- ===== src/Auth/Sessions.antt =====
-- src/modules/auth/services/session.service.js: sessions and their refresh tokens, the tables of
-- prisma/schema.prisma that they stand in, and the states that Redis keeps. A raw token and its hash
-- are numbers. The settings of the environment and what is drawn at random are arguments.
pub mod Tables
pub mod Create
pub mod Revoke
pub mod Rotate
pub mod State
pub mod Steps
pub mod Used
pub mod Once
pub mod Revoked
pub mod Theft
pub mod Claims
pub mod Answers
pub mod Known
pub mod Guarded
