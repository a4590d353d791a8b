-- ===== src/Tests.antt =====
-- Runs of the modelled code on concrete tables, and the theorems at concrete inputs.
pub mod Data
pub mod Movements
pub mod Purchases
pub mod Staff
mod Examples
mod Orders
mod Users
mod Outbox
mod Places
mod Bot
