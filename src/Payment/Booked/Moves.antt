-- ===== src/Payment/Booked/Moves.antt =====
-- How the invariant of Payment/Booked/Invariant.antt survives the writes that the payment code
-- makes: a new record, a record rewritten in place, and a movement with the record it is for.
use ev_charger_management_pl.Prelude.{
  ℕ, ◌+◌, ◌≡◌, none, some, true, ◌==◌, ==_iff, is_some, inl, inr, Bool-cases, arith, if◌then◌else◌,
  or_else,
}
use ev_charger_management_pl.Prelude.Table.{
  find_by_id, find_by_id-save, find_by_id-create, save-IsTable, create, create-IsTable,
}
use ev_charger_management_pl.Models.Wallet.{WalletTransactionType, LedgerDirection}
use ev_charger_management_pl.Models.Payment.{PaymentTransaction}
use ev_charger_management_pl.Store.{Store}
use ev_charger_management_pl.Wallet.{MovementInput, apply_movement, stored_balance}
use ev_charger_management_pl.Wallet.Ledger.{direction_of}
use ev_charger_management_pl.Wallet.Movement.{movement-IsReconciled}
use ev_charger_management_pl.Payment.Recharge.{put_payment}
use ev_charger_management_pl.Payment.Booked.Invariant.{
  total_for, due, IsBooked, IsReconciled-payments, added, total_for-after, movement_payments,
  movement_wallets,
}

-- The dues of a payment record.
abbrev pub due_of : WalletTransactionType → PaymentTransaction → ℕ
due_of t p = due t (some p)

pub create-IsBooked :
    (k : ℕ) (p : PaymentTransaction) (db : Store)
    → IsBooked db
    → find_by_id k db.payments ≡ none
    → ((t : WalletTransactionType) → due_of t p ≡ 0)
    → IsBooked (record db { payments = create k p db.payments })
unfolding stored_balance
create-IsBooked k p db h new clear = record {
  wallets = h.wallets;
  payments = create-IsTable k p db.payments new h.payments;
  reconciled = record { rows = h.reconciled.rows; agrees = h.reconciled.agrees };
  booked = λ t j. rw find_by_id-create (created t j);
}
  where
    created :
        (t : WalletTransactionType) (j : ℕ)
        → total_for t j db.ledger
          ≡ due t (or_else (find_by_id j db.payments) (if k == j then some p else none))
    created t j = elim (Bool-cases (k == j)) [
      | inl same ↦ rw (same, h.booked t j) (ground (arith, clear t, (==_iff k j).0 same))
      | inr other ↦ rw (other, h.booked t j) (ground arith)
    ]

pub put-IsBooked :
    (k : ℕ) (p p' : PaymentTransaction) (db : Store)
    → IsBooked db
    → find_by_id k db.payments ≡ some p
    → ((t : WalletTransactionType) → due_of t p' ≡ due_of t p)
    → IsBooked (put_payment k p' db)
put-IsBooked k p p' db h stored same = record {
  wallets = h.wallets;
  payments = save-IsTable k p' db.payments h.payments;
  reconciled = IsReconciled-payments k p' db h.reconciled;
  booked =
      λ t j. ground (arith, find_by_id-save j k p' db.payments, h.booked t j, same t, ==_iff k j);
}

-- A movement neither reads nor writes the payment records.
pub movement-put_payment :
    (input : MovementInput) (d : LedgerDirection) (k : ℕ) (p : PaymentTransaction) (db : Store)
    → apply_movement input d (put_payment k p db)
      ≡ ((apply_movement input d db).0, put_payment k p (apply_movement input d db).1)
unfolding apply_movement
movement-put_payment input d k p db = ground arith

-- A movement for a payment, with the record rewritten so that its dues grow by the movement.
pub moved-IsBooked :
    (input : MovementInput) (d : LedgerDirection) (k : ℕ) (p p' : PaymentTransaction) (db : Store)
    → IsBooked db
    → find_by_id k db.payments ≡ some p
    → input.payment_transaction_id ≡ some k
    → d ≡ direction_of input.type
    → is_some (apply_movement input d db).0 ≡ true
    → ((t : WalletTransactionType) → due_of t p' ≡ added input t k + due_of t p)
    → IsBooked (put_payment k p' (apply_movement input d db).1)
moved-IsBooked input d k p p' db h stored ref dir done grown = record {
  wallets = movement_wallets input d db h.wallets;
  payments = rw (movement_payments input d db) (save-IsTable k p' db.payments h.payments);
  reconciled = IsReconciled-payments k p' _ (movement-IsReconciled input d db h.reconciled dir);
  booked = λ t j.
      rw (total_for-after input d db t j done, movement_payments input d db)
        (ground (arith, find_by_id-save j k p' db.payments, h.booked t j, grown t, ==_iff k j));
}
