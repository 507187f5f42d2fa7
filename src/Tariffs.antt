-- ===== src/Tariffs.antt =====
-- The prices of the companies: backend/src/services/tariff.service.ts.
pub mod Service
pub mod Active
pub mod Swap
pub mod Steps
