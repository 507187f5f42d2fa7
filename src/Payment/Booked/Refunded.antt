-- ===== src/Payment/Booked/Refunded.antt =====
-- What `refundRecharge` of backend/src/services/payment.service.ts does to the money: run on its own
-- it keeps the books; two runs that both pass the check debit twice.
use ev_charger_management_pl.Prelude.{
  ℕ, ◌+◌, ◌≡◌, refl, ap, List, none, some, true, false, is_some, inl, inr, Bool-cases, Option-cases,
  ◌⊎◌, arith,
}
use ev_charger_management_pl.Prelude.Result.{ok, is_ok, Result-cases}
use ev_charger_management_pl.Prelude.Table.{find_by_id, find_by_id-save_self}
use ev_charger_management_pl.Access.{AuthUser, is_super_admin}
use ev_charger_management_pl.Models.Wallet.{
  WalletTransactionType, WalletTransaction, recharge, session_debit, refund, debit,
}
use ev_charger_management_pl.Models.Payment.{
  PaymentPurpose, wallet_recharge, is_wallet_recharge, paid, refunded, PaymentTransaction,
}
use ev_charger_management_pl.Store.{Store}
use ev_charger_management_pl.Wallet.{MovementInput, apply_movement}
use ev_charger_management_pl.Payment.Recharge.{Row, put_payment}
use ev_charger_management_pl.Payment.Refund.{
  check_refund, mark_refunded, reverse_recharge, refund_recharge,
}
use ev_charger_management_pl.Payment.Booked.Invariant.{
  IsBooked, total_for, total_for-after, added, movement_payments,
}
use ev_charger_management_pl.Payment.Booked.Moves.{due_of, moved-IsBooked}

-- The debit that takes a recharge back out.
abbrev pub reversal_of : Row → MovementInput
reversal_of row = record {
  wallet_id = row.1.wallet_id;
  user_id = row.1.user_id;
  amount_paise = row.1.amount_paise;
  type = refund;
  payment_transaction_id = some row.0;
  charging_session_id = none;
}

recharge_purpose : (p : PaymentPurpose) → is_wallet_recharge p ≡ true → p ≡ wallet_recharge
recharge_purpose p h = ground arith

-- The check passes exactly a stored paid recharge, for the platform administrator, and writes
-- nothing.
pub check_refund_ok :
    (actor : AuthUser) (k : ℕ) (row : Row) (db : Store)
    → (check_refund actor k db).0 ≡ ok row
    → (row.0 ≡ k)
      × (find_by_id k db.payments ≡ some row.1)
      × (is_wallet_recharge row.1.purpose ≡ true)
      × (row.1.status ≡ paid)
      × (is_super_admin actor.role ≡ true)
unfolding check_refund
check_refund_ok actor k row db h = elim (Option-cases (find_by_id k db.payments)) [
  | inl missing ↦ ground arith
  | inr (p, stored) ↦ elim (Bool-cases (is_super_admin actor.role)) [
    | inr other ↦ ground arith
    | inl admin ↦ elim (Bool-cases (is_wallet_recharge p.purpose)) [
      | inr session ↦ ground arith
      | inl purposed ↦ ground arith
    ]
  ]
]

pub check_refund_store : (actor : AuthUser) (k : ℕ) (db : Store) → (check_refund actor k db).1 ≡ db
unfolding check_refund
check_refund_store actor k db = ground arith

mark_refunded_found :
    (k : ℕ) (p : PaymentTransaction) (db : Store)
    → find_by_id k db.payments ≡ some p
    → mark_refunded k db ≡ put_payment k (record p { status = refunded }) db
unfolding mark_refunded
mark_refunded_found k p db stored = ground arith

-- The transaction of a reversal, on whatever was read: it is refused and writes nothing, or it
-- debits and marks.
pub reverse_recharge_cases :
    (row : Row) (p : PaymentTransaction) (db : Store)
    → find_by_id row.0 db.payments ≡ some p
    → ((is_ok (reverse_recharge row db).0 ≡ false) × ((reverse_recharge row db).1 ≡ db))
      ⊎ ((is_ok (reverse_recharge row db).0 ≡ true)
          × (is_some (apply_movement (reversal_of row) debit db).0 ≡ true)
          × ((reverse_recharge row db).1
              ≡ put_payment row.0
                  (record p { status = refunded })
                  (apply_movement (reversal_of row) debit db).1))
unfolding reverse_recharge
reverse_recharge_cases row p db stored =
    elim (Option-cases (apply_movement (reversal_of row) debit db).0) [
      | inl refused ↦ inl (ground arith, ground arith)
      | inr (m, done) ↦ inr (
        ground arith,
        rw done refl,
        ground (
          arith,
          mark_refunded_found row.0 p (apply_movement (reversal_of row) debit db).1,
          movement_payments (reversal_of row) debit db,
        ),
      )
    ]

due_of-refunded :
    (k : ℕ) (p : PaymentTransaction) (t : WalletTransactionType)
    → p.status ≡ paid
    → p.purpose ≡ wallet_recharge
    → due_of t (record p { status = refunded }) ≡ added (reversal_of (k, p)) t k + due_of t p
due_of-refunded k p recharge h e = ground arith
due_of-refunded k p session_debit h e = ground arith
due_of-refunded k p refund h e = ground arith

reverse-IsBooked :
    (k : ℕ) (p : PaymentTransaction) (db : Store)
    → IsBooked db
    → find_by_id k db.payments ≡ some p
    → p.status ≡ paid
    → p.purpose ≡ wallet_recharge
    → IsBooked (reverse_recharge (k, p) db).1
reverse-IsBooked k p db h stored done purposed = elim (reverse_recharge_cases (k, p) p db stored) [
  | inl (failed, same) ↦ rw same h
  | inr (went, moved, e) ↦ rw e (
      moved-IsBooked (reversal_of (k, p)) debit k p (record p { status = refunded }) db h stored
        refl refl moved (λ t. due_of-refunded k p t done purposed))
]

-- The store after `refundRecharge` is the one before or the one that the transaction leaves.
refund_recharge_cases :
    (actor : AuthUser) (k : ℕ) (db : Store)
    → ((refund_recharge actor k db).1 ≡ db)
      ⊎ ((row : Row) × ((check_refund actor k db).0 ≡ ok row)
          × ((refund_recharge actor k db).1 ≡ (reverse_recharge row db).1))
unfolding refund_recharge
refund_recharge_cases actor k db = elim (Result-cases (check_refund actor k db).0) [
  | inl (e, thrown) ↦ inl (ground (arith, check_refund_store actor k db))
  | inr (row, passed) ↦ inr (row, passed, ground (arith, check_refund_store actor k db))
]

-- A reversal that no other one runs beside keeps the books.
pub refund_recharge-IsBooked :
    (actor : AuthUser) (k : ℕ) (db : Store) → IsBooked db → IsBooked (refund_recharge actor k db).1
refund_recharge-IsBooked actor k db h = elim (refund_recharge_cases actor k db) [
  | inl same ↦ rw same h
  | inr ((j, p), passed, e) ↦
      let (same, stored, purposed, done, admin) = check_refund_ok actor k (j, p) db passed in
      rw e (reverse-IsBooked j p db h (rw same stored) done (recharge_purpose p.purpose purposed))
]

reversed :
    (row : Row) (p : PaymentTransaction) (db : Store)
    → find_by_id row.0 db.payments ≡ some p
    → is_ok (reverse_recharge row db).0 ≡ true
    → (total_for refund row.0 (reverse_recharge row db).1.ledger
        ≡ row.1.amount_paise + total_for refund row.0 db.ledger)
      × (find_by_id row.0 (reverse_recharge row db).1.payments
          ≡ some (record p { status = refunded }))
reversed row p db stored went = elim (reverse_recharge_cases row p db stored) [
  | inl (failed, same) ↦ absurd (cc (went, failed))
  | inr (ran, moved, e) ↦
      let input = reversal_of row in
      rw e (
        ground (arith, total_for-after input debit db refund row.0 moved),
        find_by_id-save_self row.0 (record p { status = refunded }) {b = p}
            (apply_movement input debit db).1.payments
            (rw (movement_payments input debit db) stored),
      )
]

not_reversed : (p : PaymentTransaction) → p.status ≡ paid → due_of refund p ≡ 0
not_reversed p done = ground arith

chained :
    {j j' k a a' : ℕ} (l₀ l₁ l₂ : List WalletTransaction)
    → j ≡ k
    → j' ≡ k
    → a' ≡ a
    → total_for refund j l₁ ≡ a + total_for refund j l₀
    → total_for refund j' l₂ ≡ a' + total_for refund j' l₁
    → total_for refund k l₀ ≡ 0
    → total_for refund k l₂ ≡ a + a
chained l₀ l₁ l₂ same same' one first second clear = ground arith

-- Two administrators reverse one recharge, and both have read it as paid before either transaction
-- runs. If both transactions then go through, the driver is debited the amount of the recharge twice.
pub refund_race :
    (actor actor' : AuthUser) (k : ℕ) (row row' : Row) (db : Store)
    → IsBooked db
    → (check_refund actor k db).0 ≡ ok row
    → (check_refund actor' k db).0 ≡ ok row'
    → is_ok (reverse_recharge row db).0 ≡ true
    → is_ok (reverse_recharge row' (reverse_recharge row db).1).0 ≡ true
    → total_for refund k (reverse_recharge row' (reverse_recharge row db).1).1.ledger
      ≡ row.1.amount_paise + row.1.amount_paise
refund_race actor actor' k (j, p) (j', p') db h passed passed' went went' =
    let (same, stored, purposed, done, admin) = check_refund_ok actor k (j, p) db passed in
    let (same', stored', purposed', done', admin') = check_refund_ok actor' k (j', p') db passed' in
    let one : p' ≡ p = cc (stored, stored') in
    let (first, found) = reversed (j, p) p db (rw same stored) went in
    let found' : find_by_id j' (reverse_recharge (j, p) db).1.payments
        ≡ some (record p { status = refunded }) =
      cc (same, same', found) in
    let (second, _) =
      reversed (j', p') (record p { status = refunded }) (reverse_recharge (j, p) db).1 found'
        went' in
    let clear : total_for refund k db.ledger ≡ 0 =
      rw (h.booked refund k, stored) (not_reversed p done) in
    chained db.ledger (reverse_recharge (j, p) db).1.ledger
      (reverse_recharge (j', p') (reverse_recharge (j, p) db).1).1.ledger same same'
      (ap (λ (q : PaymentTransaction). q.amount_paise) one) first second clear
