-- ===== src/Session.antt =====
-- The life of a charging session: backend/src/services/sessionEvents.service.ts (what chargers
-- report), backend/src/services/chargingSession.service.ts (what people ask for),
-- backend/src/utils/sessionEnd.ts, and the transaction counter of backend/src/ocpp/registry.ts.
pub mod Events
pub mod Failing
pub mod Releasing
pub mod LastSeen
pub mod Authorizing
pub mod Starting
pub mod Stopping
pub mod Evolution
pub mod Metering
pub mod Exclusive
pub mod Reports
pub mod Ending
pub mod Startable
pub mod Steps
