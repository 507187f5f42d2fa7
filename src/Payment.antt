-- ===== src/Payment.antt =====
-- Payments: backend/src/services/payment.service.ts and backend/src/payments/razorpay.ts.
pub mod Provider
pub mod Recharge
pub mod Backoff
pub mod Settlement
pub mod Arrears
pub mod Collection
pub mod Refund
pub mod Booked
