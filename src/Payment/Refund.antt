-- ===== src/Payment/Refund.antt =====
-- The reversal of a recharge: `refundRecharge` of backend/src/services/payment.service.ts, as its
-- two parts, the checks on what was read and the transaction. The save in the transaction writes
-- the status by `_id` alone.
use ev_charger_management_pl.Prelude.{ℕ, none, some, not}
use ev_charger_management_pl.Prelude.Result.{
  ok, err, Action, pure, throw, gets, require, throw_if, ◌>>=◌, ◌>>◌,
}
use ev_charger_management_pl.Prelude.Table.{find_by_id}
use ev_charger_management_pl.Access.{AuthUser, is_super_admin}
use ev_charger_management_pl.Models.Wallet.{refund, debit}
use ev_charger_management_pl.Models.Payment.{
  PaymentStatus, paid, refunded, is_wallet_recharge, PaymentTransaction,
}
use ev_charger_management_pl.Store.{Store}
use ev_charger_management_pl.Wallet.{apply_movement}
use ev_charger_management_pl.Payment.Recharge.{Row, put_payment}

pub data RefundError : Type 0 where
  only_platform_admin payment_not_found only_a_recharge already_refunded already_spent : RefundError
  cannot_refund : PaymentStatus → RefundError

abbrev refundable : PaymentStatus → Row → Action Store RefundError Row
refundable paid row = pure row
refundable refunded row = throw already_refunded
refundable status row = throw (cannot_refund status)

unfoldable pub check_refund : AuthUser → ℕ → Action Store RefundError Row
check_refund actor payment_id = do
  throw_if (not (is_super_admin actor.role)) only_platform_admin
  found ← gets (λ db. find_by_id payment_id db.payments)
  payment ← require found payment_not_found
  throw_if (not (is_wallet_recharge payment.purpose)) only_a_recharge
  refundable payment.status (payment_id, payment)

-- `payment.status = 'refunded'; payment.save()`
unfoldable pub mark_refunded : ℕ → Store → Store
mark_refunded payment_id db = elim (find_by_id payment_id db.payments) [
  | none ↦ db
  | some p ↦ put_payment payment_id (record p { status = refunded }) db
]

unfoldable pub reverse_recharge : Row → Action Store RefundError (Unit {0})
reverse_recharge (id, payment) db =
    let (movement, db') =
      apply_movement
        (record {
          wallet_id = payment.wallet_id;
          user_id = payment.user_id;
          amount_paise = payment.amount_paise;
          type = refund;
          payment_transaction_id = some id;
          charging_session_id = none;
        })
        debit db in
    elim movement [ none ↦ (err already_spent, db) | some _ ↦ (ok tt, mark_refunded id db') ]

unfoldable pub refund_recharge : AuthUser → ℕ → Action Store RefundError PaymentTransaction
refund_recharge actor payment_id = do
  row ← check_refund actor payment_id
  reverse_recharge row
  updated ← gets (λ db. find_by_id payment_id db.payments)
  require updated payment_not_found
