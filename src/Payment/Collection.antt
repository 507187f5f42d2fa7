-- ===== src/Payment/Collection.antt =====
-- Who is settled, and when: `settleOutstandingForUser` and `sweepUnsettledSessions` of
-- backend/src/services/payment.service.ts. The timer that runs the sweep is left out.
mod Defs
pub mod Laws
unfoldable pub use Defs.*
