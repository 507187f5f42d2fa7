-- ===== src/Payment/Booked.antt =====
-- The central promise of backend/src/services/payment.service.ts: money moves for a payment exactly
-- once and by exactly its amount, and the ledger says so. Stated as an invariant of the store that
-- relates the ledger, the balances and the payment records.
pub mod Invariant
pub mod Moves
pub mod Claim
pub mod Settled
pub mod Refunded
pub mod Opened
pub mod Ordered
pub mod Reach
pub mod Settle
pub mod Verified
pub mod Webhook
