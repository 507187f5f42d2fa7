-- ===== src/Models.antt =====
-- The documents of the database, one module for each group of models under backend/src/models.
pub mod Wallet
pub mod Payment
pub mod Session
pub mod Charger
