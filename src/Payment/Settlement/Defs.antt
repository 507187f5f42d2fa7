-- ===== src/Payment/Settlement/Defs.antt =====
-- The settlement functions of backend/src/services/payment.service.ts.
use ev_charger_management_pl.Prelude.{
  ℕ, ◌+◌, Option, none, some, Bool, true, false, ◌&&◌, ◌==◌, is_ref, if◌then◌else◌,
}
use ev_charger_management_pl.Prelude.Table.{ObjectIds, find_by_id, find_one, save, create}
use ev_charger_management_pl.Models.Wallet.{session_debit, debit}
use ev_charger_management_pl.Models.Payment.{
  PaymentStatus, is_pending, is_paid, is_live, session_debit as for_session, internal,
  insufficient_balance_for, PaymentTransaction,
}
use ev_charger_management_pl.Models.Session.{
  SessionPaymentStatus, unpaid, paid as collected, compute_amount, ChargingSession,
}
use ev_charger_management_pl.Store.{Store}
use ev_charger_management_pl.Wallet.{get_or_create_wallet, apply_movement}
use ev_charger_management_pl.Payment.Recharge.{Row, put_payment}
use ev_charger_management_pl.Payment.Backoff.{retry_delay_ms}

pub data SkipReason : Type 0 where
  session_not_found already_paid not_priced_yet nothing_to_collect : SkipReason
  settlement_in_progress settled_by_concurrent_attempt : SkipReason

-- `SettlementResult`; a pending one always says that the balance is insufficient.
pub data SettlementResult : Type 0 where
  paid pending : SettlementResult
  skipped : SkipReason → SettlementResult

abbrev pub is_settled : SettlementResult → Bool
is_settled SettlementResult.paid = true
is_settled _ = false

abbrev pub live_for : ℕ → PaymentTransaction → Bool
live_for session_id p = is_ref p.charging_session_id session_id && is_live p.status

-- The live payment of the session, created if there is none. Its unique index can refuse only
-- what a concurrent caller created since the read; that caller then settles the session.
unfoldable pub live_payment :
    ObjectIds → (session_id amount wallet_id : ℕ) → ChargingSession → Store → Row × Store
live_payment ids session_id amount wallet_id charging db =
    let id = ids.fresh _ db.payments in
    let opened : PaymentTransaction = record {
      user_id = charging.user_id;
      wallet_id = wallet_id;
      purpose = for_session;
      provider = internal;
      charging_session_id = some session_id;
      company_id = some charging.company_id;
      amount_paise = amount;
      status = PaymentStatus.pending;
      provider_order_id = none;
      provider_payment_id = none;
      attempts = 0;
      next_attempt_at = none;
      failure_reason = none;
      paid_at = none;
    } in
    elim (find_one (live_for session_id) db.payments) [
      | some row ↦ (row, db)
      | none ↦ ((id, opened), record db { payments = create id opened db.payments })
    ]

-- `charging.paymentStatus = 'paid'; charging.save()`: the save writes what the document changed.
unfoldable pub mark_session_paid : ℕ → Store → Store
mark_session_paid session_id db = elim (find_by_id session_id db.sessions) [
  | none ↦ db
  | some s ↦ record db {
    sessions =
        save session_id (compute_amount (record s { payment_status = collected })) db.sessions;
  }
]

-- The claim of the payment in the transaction, and what follows it; `before` is the store that an
-- abort goes back to.
unfoldable pub claim_settlement :
    (now session_id payment_id : ℕ) → Store → Store → SettlementResult × Store
claim_settlement now session_id payment_id before db = elim (find_by_id payment_id db.payments) [
  | none ↦ (skipped settled_by_concurrent_attempt, before)
  | some p ↦
      if is_pending p.status
      then (
        SettlementResult.paid,
        mark_session_paid session_id (
            put_payment payment_id
              (record p {
                status = PaymentStatus.paid;
                paid_at = some now;
                failure_reason = none;
                next_attempt_at = none;
              })
              db),
      )
      else (skipped settled_by_concurrent_attempt, before)
]

-- The transaction of `settleSession`: debit, claim, mark.
unfoldable pub debit_and_claim :
    (now session_id amount wallet_id payment_id : ℕ)
    → ChargingSession
    → Store
    → SettlementResult × Store
debit_and_claim now session_id amount wallet_id payment_id charging db =
    let (movement, db') =
      apply_movement
        (record {
          wallet_id = wallet_id;
          user_id = charging.user_id;
          amount_paise = amount;
          type = session_debit;
          payment_transaction_id = some payment_id;
          charging_session_id = some session_id;
        })
        debit db in
    elim movement [
      | none ↦ (SettlementResult.pending, db)
      | some _ ↦ claim_settlement now session_id payment_id db db'
    ]

-- The bookkeeping of a shortfall, on the payment as it was read: the save writes three fields.
unfoldable pub record_shortfall : (now amount attempts payment_id : ℕ) → Store → Store
record_shortfall now amount attempts payment_id db = elim (find_by_id payment_id db.payments) [
  | none ↦ db
  | some p ↦
      put_payment payment_id
        (record p {
          attempts = attempts + 1;
          next_attempt_at = some (now + retry_delay_ms (attempts + 1));
          failure_reason = some (insufficient_balance_for amount);
        })
        db
]

abbrev pub book : (now amount : ℕ) → Row → SettlementResult → Store → SettlementResult × Store
book now amount row SettlementResult.pending db =
    (SettlementResult.pending, record_shortfall now amount row.1.attempts row.0 db)
book now amount row result db = (result, db)

abbrev pub collect_on :
    (now session_id amount wallet_id : ℕ) → ChargingSession → Row → Store → SettlementResult × Store
collect_on now session_id amount wallet_id charging row db =
    if is_paid row.1.status
    then (skipped already_paid, db)
    else let (result, db') = debit_and_claim now session_id amount wallet_id row.0 charging db in
      book now amount row result db'

unfoldable pub collect :
    ObjectIds → (now session_id amount : ℕ) → ChargingSession → Store → SettlementResult × Store
collect ids now session_id amount charging db =
    let (wallet, db₁) = get_or_create_wallet (ids.fresh _ db.wallets) charging.user_id db in
    let (row, db₂) = live_payment ids session_id amount wallet.0 charging db₁ in
    collect_on now session_id amount wallet.0 charging row db₂

unfoldable pub settle_priced :
    ObjectIds
    → (now session_id : ℕ) → SessionPaymentStatus
    → Option ℕ
    → ChargingSession
    → Store
    → SettlementResult × Store
settle_priced ids now session_id collected amount charging db = (skipped already_paid, db)
settle_priced ids now session_id unpaid none charging db = (skipped not_priced_yet, db)
settle_priced ids now session_id unpaid (some amount) charging db =
    if amount == 0
    then (skipped nothing_to_collect, db)
    else collect ids now session_id amount charging db

unfoldable pub settle_session : ObjectIds → (now session_id : ℕ) → Store → SettlementResult × Store
settle_session ids now session_id db = elim (find_by_id session_id db.sessions) [
  | none ↦ (skipped session_not_found, db)
  | some charging ↦
      settle_priced ids now session_id charging.payment_status charging.amount_paise charging db
]
