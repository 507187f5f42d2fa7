-- ===== src/Payment/Recharge.antt =====
-- Recharges: `createRechargeOrder`, `verifyAndCredit` and `handleWebhook` of
-- backend/src/services/payment.service.ts. `verifyAndCredit` is written as its two parts, the checks
-- on what was read and the transaction, since other callers may run between them. The settlement
-- that a credit sets off is a call of its own (Payment/Collection.antt). Log lines and notifications
-- are left out.
mod Defs
mod Hook
unfoldable pub use Defs.*
unfoldable pub use Hook.*
