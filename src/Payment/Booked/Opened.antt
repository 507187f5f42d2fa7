-- ===== src/Payment/Booked/Opened.antt =====
-- The writes of backend/src/services/payment.service.ts that open a wallet or a payment record:
-- they move nothing.
use ev_charger_management_pl.Prelude.{
  ℕ, ◌≡◌, ◌⊎◌, refl, none, some, inl, inr, ◌==◌, ==_iff, Option-cases, arith,
}
use ev_charger_management_pl.Prelude.Table.{
  Table, ObjectIds, find_by_id, find_one, create-IsTable, find_by_id-create, create,
}
use ev_charger_management_pl.Models.Wallet.{
  Wallet, active, WalletTransactionType, recharge, session_debit, refund,
}
use ev_charger_management_pl.Models.Payment.{
  session_debit as for_session, internal, pending, failed, PaymentTransaction,
}
use ev_charger_management_pl.Models.Session.{ChargingSession}
use ev_charger_management_pl.Store.{Store}
use ev_charger_management_pl.Wallet.{get_or_create_wallet, stored_balance}
use ev_charger_management_pl.Payment.Recharge.{Row}
use ev_charger_management_pl.Payment.Settlement.{live_payment, live_for}
use ev_charger_management_pl.Payment.Booked.Invariant.{IsBooked}
use ev_charger_management_pl.Payment.Booked.Moves.{due_of, create-IsBooked}

stored_balance-opened :
    (j k user_id : ℕ) (db : Store)
    → find_by_id k db.wallets ≡ none
    → stored_balance j (record db {
      wallets =
          create k (record { user_id = user_id; balance_paise = 0; status = active }) db.wallets;
    })
      ≡ stored_balance j db
unfolding stored_balance
stored_balance-opened j k user_id db new = ground (
  arith,
  find_by_id-create j k (record { user_id = user_id; balance_paise = 0; status = active })
      db.wallets,
  ==_iff k j,
)

opened-IsBooked :
    (k user_id : ℕ) (db : Store)
    → IsBooked db
    → find_by_id k db.wallets ≡ none
    → IsBooked (record db {
      wallets =
          create k (record { user_id = user_id; balance_paise = 0; status = active }) db.wallets;
    })
opened-IsBooked k user_id db h new = record {
  wallets = create-IsTable k _ db.wallets new h.wallets;
  payments = h.payments;
  reconciled = record {
    rows = h.reconciled.rows;
    agrees = λ j. rw (stored_balance-opened j k user_id db new) (h.reconciled.agrees j);
  };
  booked = h.booked;
}

-- A wallet that is opened is empty.
pub get_or_create_wallet-IsBooked :
    (ids : ObjectIds) (user_id : ℕ) (db : Store)
    → IsBooked db
    → IsBooked (get_or_create_wallet (ids.fresh _ db.wallets) user_id db).1
unfolding get_or_create_wallet
get_or_create_wallet-IsBooked ids user_id db h =
    elim (Option-cases (find_one (λ (w : Wallet). w.user_id == user_id) db.wallets)) [
      | inr (row, found) ↦ rw (found, get_or_create_wallet) h
      | inl missing ↦
          rw (missing, get_or_create_wallet)
            (opened-IsBooked (ids.fresh _ db.wallets) user_id db h (ids.unused _ db.wallets))
    ]

pub pending_due :
    (p : PaymentTransaction) (t : WalletTransactionType) → p.status ≡ pending → due_of t p ≡ 0
pending_due p recharge h = ground arith
pending_due p session_debit h = ground arith
pending_due p refund h = ground arith

pub failed_due :
    (p : PaymentTransaction) (t : WalletTransactionType) → p.status ≡ failed → due_of t p ≡ 0
failed_due p recharge h = ground arith
failed_due p session_debit h = ground arith
failed_due p refund h = ground arith

-- The record that a settlement opens.
abbrev pub bill_of : (session_id amount wallet_id : ℕ) → ChargingSession → PaymentTransaction
bill_of session_id amount wallet_id charging = record {
  user_id = charging.user_id;
  wallet_id = wallet_id;
  purpose = for_session;
  provider = internal;
  charging_session_id = some session_id;
  company_id = some charging.company_id;
  amount_paise = amount;
  status = pending;
  provider_order_id = none;
  provider_payment_id = none;
  attempts = 0;
  next_attempt_at = none;
  failure_reason = none;
  paid_at = none;
}

-- The live payment is one that is stored, and then nothing is written, or a new pending one.
pub live_payment_cases :
    (ids : ObjectIds) (session_id amount wallet_id : ℕ) (charging : ChargingSession) (db : Store)
    → let r = live_payment ids session_id amount wallet_id charging db in
      let k = ids.fresh _ db.payments in
      let opened = bill_of session_id amount wallet_id charging in
      ((row : Row) × (find_one (live_for session_id) db.payments ≡ some row) × (r ≡ (row, db)))
      ⊎ (r ≡ ((k, opened), record db { payments = create k opened db.payments }))
unfolding live_payment
live_payment_cases ids session_id amount wallet_id charging db =
    elim (Option-cases (find_one (live_for session_id) db.payments)) [
      | inr (row, found) ↦ inl (row, found, rw (found, live_payment) refl)
      | inl missing ↦ inr (rw (missing, live_payment) refl)
    ]

pub live_payment-IsBooked :
    (ids : ObjectIds) (session_id amount wallet_id : ℕ) (charging : ChargingSession) (db : Store)
    → IsBooked db
    → IsBooked (live_payment ids session_id amount wallet_id charging db).1
live_payment-IsBooked ids session_id amount wallet_id charging db h =
    elim (live_payment_cases ids session_id amount wallet_id charging db) [
      | inl (row, found, e) ↦ rw e h
      | inr e ↦
          let opened = bill_of session_id amount wallet_id charging in
          rw e (
            create-IsBooked (ids.fresh _ db.payments) opened db h (ids.unused _ db.payments)
              (λ t. pending_due opened t refl))
    ]

pub created_found :
    (k : ℕ) (p : PaymentTransaction) (t : Table PaymentTransaction)
    → find_by_id k t ≡ none
    → find_by_id k (create k p t) ≡ some p
created_found k p t new = ground (arith, find_by_id-create k k p t, (==_iff k k).1 refl)
