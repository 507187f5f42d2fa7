-- ===== src/Payment/Settlement.antt =====
-- The settlement of one session: `settleSession` of backend/src/services/payment.service.ts. It is
-- written as its parts, since other settlements of the same session may run between them: the reads
-- and the creation of the payment record, the transaction, and the bookkeeping of a shortfall. Log
-- lines and notifications are left out.
mod Defs
unfoldable pub use Defs.*
