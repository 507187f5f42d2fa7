-- ===== src/Payment/Arrears.antt =====
-- May a driver who owes money start another charge? `assessArrears` and `getOutstandingTotal` of
-- backend/src/services/payment.service.ts, with the limits of backend/src/constants/wallet.ts.
mod Defs
pub mod Laws
unfoldable pub use Defs.*
