-- ===== src/Wallet.antt =====
-- The wallet: backend/src/services/wallet.service.ts. Each function takes the store and returns it.
-- Display texts and log lines are left out. The callers pass amounts of at least one paisa, so the
-- `min: 1` of the ledger's schema is never met and is not modelled.
mod Defs
pub mod Ledger
pub mod Movement
unfoldable pub use Defs.*
