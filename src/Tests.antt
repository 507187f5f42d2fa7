-- ===== src/Tests.antt =====
-- Concrete stores and runs on which the theorems of the development are applied.
mod Sample
mod Payments
mod Rest
mod Sessions
mod Complaints
mod Gateway
mod Prices
mod Windows
mod Plugs
