-- ===== src/Models/Payment.antt =====
-- Payment records: backend/src/models/paymentTransaction.model.ts and the types of
-- backend/src/constants/wallet.ts. Provider ids are compared and never read, so they are numbers;
-- a moment is a number of milliseconds. A failure reason keeps what its text is built from.
use ev_charger_management_pl.Prelude.{ℕ, Option, Bool, true, false}
use ev_charger_management_pl.Access.{Owned}

-- `PAYMENT_STATUSES`
pub data PaymentStatus : Type 0 where
  pending paid failed refunded : PaymentStatus

-- `LIVE_PAYMENT_STATUSES.includes(status)`
abbrev pub is_live : PaymentStatus → Bool
is_live pending = true
is_live paid = true
is_live failed = false
is_live refunded = false

abbrev pub is_pending : PaymentStatus → Bool
is_pending pending = true
is_pending _ = false

abbrev pub is_paid : PaymentStatus → Bool
is_paid paid = true
is_paid _ = false

abbrev pub is_refunded : PaymentStatus → Bool
is_refunded refunded = true
is_refunded _ = false

-- `PAYMENT_PURPOSES`
pub data PaymentPurpose : Type 0 where
  wallet_recharge session_debit : PaymentPurpose

abbrev pub is_wallet_recharge : PaymentPurpose → Bool
is_wallet_recharge wallet_recharge = true
is_wallet_recharge session_debit = false

-- `PAYMENT_PROVIDERS`
pub data PaymentProvider : Type 0 where
  razorpay internal : PaymentProvider

pub data PaymentFailure : Type 0 where
  provider_unreachable : PaymentFailure
  insufficient_balance_for : ℕ → PaymentFailure

pub record PaymentTransaction : Type 0 where
  pub user_id : ℕ
  pub wallet_id : ℕ
  pub purpose : PaymentPurpose
  pub provider : PaymentProvider
  pub charging_session_id : Option ℕ
  pub company_id : Option ℕ
  pub amount_paise : ℕ
  pub status : PaymentStatus
  pub provider_order_id : Option ℕ
  pub provider_payment_id : Option ℕ
  pub attempts : ℕ
  pub next_attempt_at : Option ℕ
  pub failure_reason : Option PaymentFailure
  pub paid_at : Option ℕ

instance abbrev pub payment_owned : Owned PaymentTransaction
payment_owned = record { user_of = λ p. p.user_id; company_of = λ p. p.company_id }
