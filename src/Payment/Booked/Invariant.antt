-- ===== src/Payment/Booked/Invariant.antt =====
-- The invariant: for each payment and each kind of movement, what the ledger moved for it
-- (backend/src/services/payment.service.ts).
use ev_charger_management_pl.Prelude.{
  ℕ, ◌+◌, ◌≡◌, refl, Option, none, some, Bool, true, false, ◌&&◌, is_ref, if◌then◌else◌, List, [],
  ◌∷◌, arith, Option-cases, inl, inr, is_some,
}
use ev_charger_management_pl.Prelude.Table.{IsTable, find_by_id, save-IsTable}
use ev_charger_management_pl.Models.Wallet.{
  WalletTransactionType, recharge, session_debit, refund, LedgerDirection, WalletTransaction,
}
use ev_charger_management_pl.Models.Payment.{
  PaymentPurpose, wallet_recharge, session_debit as for_session, PaymentStatus, paid, refunded,
  PaymentTransaction,
}
use ev_charger_management_pl.Store.{Store}
use ev_charger_management_pl.Wallet.{MovementInput, apply_movement, stored_balance}
use ev_charger_management_pl.Wallet.Ledger.{IsReconciled}
use ev_charger_management_pl.Wallet.Movement.{movement_refused, movement_effect}
use ev_charger_management_pl.Payment.Recharge.{put_payment}

abbrev pub same_type : WalletTransactionType → WalletTransactionType → Bool
same_type recharge recharge = true
same_type session_debit session_debit = true
same_type refund refund = true
same_type _ _ = false

-- What the ledger moved for one payment, by kind of movement.
unfoldable pub total_for : WalletTransactionType → ℕ → List WalletTransaction → ℕ
total_for t k [] = 0
total_for t k (r ∷ older) =
    let rest = total_for t k older in
    if same_type r.type t && is_ref r.payment_transaction_id k then r.amount_paise + rest else rest

-- What should have moved, by the purpose and the status of the payment: a recharge is credited once
-- it is paid and taken back once it is refunded; a session is debited once its payment is paid.
abbrev pub expected : WalletTransactionType → PaymentPurpose → PaymentStatus → (amount : ℕ) → ℕ
expected recharge wallet_recharge paid amount = amount
expected recharge wallet_recharge refunded amount = amount
expected refund wallet_recharge refunded amount = amount
expected session_debit for_session paid amount = amount
expected _ _ _ amount = 0

abbrev pub due : WalletTransactionType → Option PaymentTransaction → ℕ
due t none = 0
due t (some p) = expected t p.purpose p.status p.amount_paise

pub record IsBooked (db : Store) : Type 0 where
  pub wallets : IsTable db.wallets
  pub payments : IsTable db.payments
  pub reconciled : IsReconciled db
  pub booked :
      (t : WalletTransactionType) (k : ℕ)
      → total_for t k db.ledger ≡ due t (find_by_id k db.payments)

-- The wallet side does not see the payments and the sessions.
pub IsReconciled-payments :
    (k : ℕ) (p : PaymentTransaction) (db : Store)
    → IsReconciled db
    → IsReconciled (put_payment k p db)
unfolding stored_balance
IsReconciled-payments k p db h = record { rows = h.rows; agrees = h.agrees }

-- What a movement adds for each payment.
abbrev pub added : MovementInput → WalletTransactionType → ℕ → ℕ
added input t k =
    if same_type input.type t && is_ref input.payment_transaction_id k
    then input.amount_paise
    else 0

pub total_for-after :
    (input : MovementInput) (d : LedgerDirection) (db : Store) (t : WalletTransactionType) (k : ℕ)
    → is_some (apply_movement input d db).0 ≡ true
    → total_for t k (apply_movement input d db).1.ledger ≡ added input t k + total_for t k db.ledger
unfolding total_for
total_for-after input d db t k h =
    let (w, stored, allowed, e) = movement_effect input d db h in rw e (ground arith)

-- A movement writes wallets and ledger alone.
pub movement_payments :
    (input : MovementInput) (d : LedgerDirection) (db : Store)
    → (apply_movement input d db).1.payments ≡ db.payments
unfolding apply_movement
movement_payments input d db = ground arith

pub movement_sessions :
    (input : MovementInput) (d : LedgerDirection) (db : Store)
    → (apply_movement input d db).1.sessions ≡ db.sessions
unfolding apply_movement
movement_sessions input d db = ground arith

pub movement_wallets :
    (input : MovementInput) (d : LedgerDirection) (db : Store)
    → IsTable db.wallets
    → IsTable (apply_movement input d db).1.wallets
movement_wallets input d db h = elim (Option-cases (apply_movement input d db).0) [
  | inl refused ↦ rw (movement_refused input d db refused) h
  | inr (r, done) ↦
      let (w, stored, allowed, e) = movement_effect input d db (rw done refl) in
      rw e (save-IsTable _ _ db.wallets h)
]
