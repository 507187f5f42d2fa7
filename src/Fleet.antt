-- ===== src/Fleet.antt =====
-- Chargers and their plugs as people set them up: backend/src/services/charger.service.ts and
-- backend/src/services/connector.service.ts.
pub mod Chargers
pub mod Connectors
pub mod Fitting
pub mod Upkeep
pub mod Steps
