-- ===== src/Ocpp.antt =====
-- The gateway that chargers talk to: backend/src/ocpp. A frame is parsed into a message
-- (messages.ts), a call is handled (handlers.ts) and a reply is matched with the command that it
-- answers (commands.ts); the registry (registry.ts) knows which socket belongs to which charger.
pub mod Json
pub mod Messages
pub mod Roundtrip
pub mod Replies
pub mod Routing
pub mod Accounts
pub mod Faults
pub mod Registry
pub mod Commands
pub mod Frames
pub mod Connections
pub mod Gateway
pub mod Status
pub mod Transactions
