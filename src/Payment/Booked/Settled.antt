-- ===== src/Payment/Booked/Settled.antt =====
-- What `settleSession` of backend/src/services/payment.service.ts does to the money: its debit, its
-- claim and its bookkeeping.
use ev_charger_management_pl.Prelude.{
  ℕ, ◌+◌, ◌≡◌, ◌⊎◌, refl, sym, none, some, true, false, is_some, inl, inr, Bool-cases, Option-cases,
  arith,
}
use ev_charger_management_pl.Prelude.Table.{Table, find_by_id}
use ev_charger_management_pl.Models.Wallet.{
  WalletTransactionType, recharge, session_debit, refund, debit,
}
use ev_charger_management_pl.Models.Payment.{
  session_debit as for_session, paid, is_pending, insufficient_balance_for, PaymentTransaction,
}
use ev_charger_management_pl.Models.Session.{ChargingSession}
use ev_charger_management_pl.Store.{Store}
use ev_charger_management_pl.Wallet.{MovementInput, apply_movement, stored_balance}
use ev_charger_management_pl.Payment.Recharge.{Row, put_payment}
use ev_charger_management_pl.Payment.Settlement.{
  paid as settled, pending as short, skipped, settled_by_concurrent_attempt, mark_session_paid,
  claim_settlement, debit_and_claim, record_shortfall,
}
use ev_charger_management_pl.Payment.Backoff.{retry_delay_ms}
use ev_charger_management_pl.Payment.Booked.Invariant.{IsBooked, added, movement_payments}
use ev_charger_management_pl.Payment.Booked.Moves.{due_of, put-IsBooked, moved-IsBooked}
use ev_charger_management_pl.Payment.Booked.Claim.{IsSnapshot}

-- The debit for a session.
abbrev pub debit_of : (session_id amount wallet_id payment_id : ℕ) → ChargingSession → MovementInput
debit_of session_id amount wallet_id payment_id charging = record {
  wallet_id = wallet_id;
  user_id = charging.user_id;
  amount_paise = amount;
  type = session_debit;
  payment_transaction_id = some payment_id;
  charging_session_id = some session_id;
}

abbrev pub settled_as : (now : ℕ) → PaymentTransaction → PaymentTransaction
settled_as now p = record p {
  status = paid;
  paid_at = some now;
  failure_reason = none;
  next_attempt_at = none;
}

claim_settlement_cases :
    (now session_id k : ℕ) (before db : Store)
    → (claim_settlement now session_id k before db
        ≡ (skipped settled_by_concurrent_attempt, before))
      ⊎ ((p : PaymentTransaction) × (find_by_id k db.payments ≡ some p)
          × (is_pending p.status ≡ true)
          × (claim_settlement now session_id k before db
              ≡ (settled, mark_session_paid session_id (put_payment k (settled_as now p) db))))
unfolding claim_settlement
claim_settlement_cases now session_id k before db = elim (Option-cases (find_by_id k db.payments)) [
  | inl missing ↦ inl (ground arith)
  | inr (p, stored) ↦ elim (Bool-cases (is_pending p.status)) [
    | inl open_still ↦ inr (p, stored, open_still, ground arith)
    | inr taken ↦ inl (ground arith)
  ]
]

-- The transaction takes nothing and writes nothing, or it debits a stored pending payment, marks it
-- paid and marks its session.
pub debit_and_claim_cases :
    (now session_id amount wallet_id k : ℕ) (charging : ChargingSession) (db : Store)
    → let input = debit_of session_id amount wallet_id k charging in
      let r = debit_and_claim now session_id amount wallet_id k charging db in
      ((r ≡ (short, db)) × (is_some (apply_movement input debit db).0 ≡ false))
      ⊎ (r ≡ (skipped settled_by_concurrent_attempt, db))
      ⊎ ((p : PaymentTransaction) × (find_by_id k db.payments ≡ some p)
          × (is_pending p.status ≡ true)
          × (is_some (apply_movement input debit db).0 ≡ true)
          × (r ≡ (
            settled,
            mark_session_paid session_id
                (put_payment k (settled_as now p) (apply_movement input debit db).1),
          )))
unfolding debit_and_claim
debit_and_claim_cases now session_id amount wallet_id k charging db =
    let input = debit_of session_id amount wallet_id k charging in
    elim (Option-cases (apply_movement input debit db).0) [
      | inl refused ↦ inl (ground arith, ground arith)
      | inr (m, done) ↦
          elim (claim_settlement_cases now session_id k db (apply_movement input debit db).1) [
            | inl lost ↦ inr (inl (ground arith))
            | inr (p, stored, open_still, e) ↦ inr (
                inr (
                  p,
                  rw (sym (movement_payments input debit db)) stored,
                  open_still,
                  rw done refl,
                  ground arith,
                ))
          ]
    ]

-- The money does not depend on the sessions.
pub sessions-IsBooked :
    (t : Table ChargingSession) (db : Store) → IsBooked db → IsBooked (record db { sessions = t })
unfolding stored_balance
sessions-IsBooked t db h = record {
  wallets = h.wallets;
  payments = h.payments;
  reconciled = record { rows = h.reconciled.rows; agrees = h.reconciled.agrees };
  booked = h.booked;
}

mark_session_paid-IsBooked : (k : ℕ) (db : Store) → IsBooked db → IsBooked (mark_session_paid k db)
unfolding mark_session_paid
mark_session_paid-IsBooked k db h = elim (Option-cases (find_by_id k db.sessions)) [
  | inl missing ↦ rw (missing, mark_session_paid) h
  | inr (s, stored) ↦ rw (stored, mark_session_paid) (sessions-IsBooked _ db h)
]

due_of-settled :
    (now session_id wallet_id k : ℕ) (row : Row) (charging : ChargingSession)
    (p : PaymentTransaction) (t : WalletTransactionType)
    → is_pending p.status ≡ true
    → p.purpose ≡ for_session
    → p.amount_paise ≡ row.1.amount_paise
    → due_of t (settled_as now p)
      ≡ added (debit_of session_id row.1.amount_paise wallet_id k charging) t k + due_of t p
due_of-settled now session_id wallet_id k row charging p recharge h e a = ground arith
due_of-settled now session_id wallet_id k row charging p session_debit h e a = ground arith
due_of-settled now session_id wallet_id k row charging p refund h e a = ground arith

-- The settlement transaction keeps the books, whether it pays, falls short or comes second, for a
-- debit of the amount of a payment that was read a while ago.
pub debit_and_claim-IsBooked :
    (now session_id wallet_id : ℕ) (row : Row) (charging : ChargingSession) (db : Store)
    → IsBooked db
    → IsSnapshot row db
    → row.1.purpose ≡ for_session
    → IsBooked (debit_and_claim now session_id row.1.amount_paise wallet_id row.0 charging db).1
debit_and_claim-IsBooked now session_id wallet_id row charging db h read debited =
    let input = debit_of session_id row.1.amount_paise wallet_id row.0 charging in
    elim (debit_and_claim_cases now session_id row.1.amount_paise wallet_id row.0 charging db) [
      | inl (e, refused) ↦ rw e h
      | inr (inl e) ↦ rw e h
      | inr (inr (p, stored, open_still, done, e)) ↦
          let purposed : p.purpose ≡ for_session = cc (read.purpose p stored, debited) in
          rw e (
            mark_session_paid-IsBooked session_id _ (
              moved-IsBooked input debit row.0 p (settled_as now p) db h stored refl refl done (λ t.
                due_of-settled now session_id wallet_id row.0 row charging p t open_still purposed
                  (read.amount p stored))))
    ]

due_of-same :
    (t : WalletTransactionType) (p p' : PaymentTransaction)
    → p'.purpose ≡ p.purpose
    → p'.status ≡ p.status
    → p'.amount_paise ≡ p.amount_paise
    → due_of t p' ≡ due_of t p
due_of-same t p p' e f g = rw (e, f, g) refl

abbrev shortfall_of : (now amount attempts : ℕ) → PaymentTransaction → PaymentTransaction
shortfall_of now amount attempts p = record p {
  attempts = attempts + 1;
  next_attempt_at = some (now + retry_delay_ms (attempts + 1));
  failure_reason = some (insufficient_balance_for amount);
}

-- Noting a shortfall moves no money.
pub record_shortfall-IsBooked :
    (now amount attempts k : ℕ) (db : Store)
    → IsBooked db
    → IsBooked (record_shortfall now amount attempts k db)
unfolding record_shortfall
record_shortfall-IsBooked now amount attempts k db h =
    elim (Option-cases (find_by_id k db.payments)) [
      | inl missing ↦ rw (missing, record_shortfall) h
      | inr (p, stored) ↦
          let p' = shortfall_of now amount attempts p in
          rw (stored, record_shortfall)
            (put-IsBooked k p p' db h stored (λ t. due_of-same t p p' refl refl refl))
    ]
