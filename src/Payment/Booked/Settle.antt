-- ===== src/Payment/Booked/Settle.antt =====
-- `settleSession` of backend/src/services/payment.service.ts as a whole: it keeps the books, and what
-- each of its results says of the money.
use ev_charger_management_pl.Prelude.{
  ℕ, ◌≡◌, refl, sym, subst, none, some, true, inl, inr, Bool-cases, Option, Option-cases, arith,
  ◌==◌,
}
use ev_charger_management_pl.Prelude.Table.{ObjectIds, IsTable, find_by_id, find_one_sound}
use ev_charger_management_pl.Models.Payment.{
  session_debit as for_session, is_paid, PaymentTransaction,
}
use ev_charger_management_pl.Models.Session.{
  ChargingSession, SessionPaymentStatus, unpaid, paid as collected,
}
use ev_charger_management_pl.Store.{Store}
use ev_charger_management_pl.Wallet.{get_or_create_wallet}
use ev_charger_management_pl.Payment.Recharge.{Row}
use ev_charger_management_pl.Payment.Settlement.{
  SettlementResult, skipped, live_for, live_payment, book, collect_on, collect, settle_priced,
  settle_session,
}
use ev_charger_management_pl.Payment.Booked.Invariant.{IsBooked}
use ev_charger_management_pl.Payment.Booked.Claim.{IsSnapshot}
use ev_charger_management_pl.Payment.Booked.Settled.{
  debit_and_claim-IsBooked, record_shortfall-IsBooked,
}
use ev_charger_management_pl.Payment.Booked.Opened.{
  bill_of, live_payment_cases, live_payment-IsBooked, get_or_create_wallet-IsBooked, created_found,
}

-- A payment that names a session is a session's debit, of the amount that the session was priced at.
pub record IsBilled (db : Store) : Type 0 where
  pub bill :
      (k : ℕ) (p : PaymentTransaction) (s : ℕ) (c : ChargingSession)
      → find_by_id k db.payments ≡ some p
      → p.charging_session_id ≡ some s
      → find_by_id s db.sessions ≡ some c
      → (p.purpose ≡ for_session) × (c.amount_paise ≡ some p.amount_paise)

pub get_or_create_wallet_payments :
    (k user_id : ℕ) (db : Store) → (get_or_create_wallet k user_id db).1.payments ≡ db.payments
unfolding get_or_create_wallet
get_or_create_wallet_payments k user_id db = ground arith

live_for_ref :
    (s : ℕ) (p : PaymentTransaction) → live_for s p ≡ true → p.charging_session_id ≡ some s
live_for_ref s p h = ground arith

same_amount : (o : Option ℕ) {a b : ℕ} → o ≡ some a → o ≡ some b → a ≡ b
same_amount o h e = ground arith

row-IsSnapshot :
    (row : Row) (db : Store) → find_by_id row.0 db.payments ≡ some row.1 → IsSnapshot row db
row-IsSnapshot row db stored = record {
  purpose = λ p h. ground arith;
  amount = λ p h. ground arith;
}

-- The live payment of a priced session is a debit of the session's amount.
live_payment_row :
    (ids : ObjectIds) (s amount wallet_id : ℕ) (c : ChargingSession) (db : Store)
    → IsTable db.payments
    → ((k : ℕ) (p : PaymentTransaction)
        → find_by_id k db.payments ≡ some p
        → p.charging_session_id ≡ some s
        → (p.purpose ≡ for_session) × (c.amount_paise ≡ some p.amount_paise))
    → c.amount_paise ≡ some amount
    → let r = live_payment ids s amount wallet_id c db in
      IsSnapshot r.0 r.1 × (r.0.1.purpose ≡ for_session) × (r.0.1.amount_paise ≡ amount)
live_payment_row ids s amount wallet_id c db t billed priced =
    elim (live_payment_cases ids s amount wallet_id c db) [
      | inl ((k, p), found, e) ↦
          let (stored, fits) = find_one_sound (live_for s) db.payments k p t found in
          let (purposed, same) = billed k p stored (live_for_ref s p fits) in
          rw e (row-IsSnapshot (k, p) db stored, purposed, same_amount c.amount_paise same priced)
      | inr e ↦
          let k = ids.fresh _ db.payments in
          let p = bill_of s amount wallet_id c in
          rw e (
            row-IsSnapshot (k, p) _ (created_found k p db.payments (ids.unused _ db.payments)),
            refl,
            refl,
          )
    ]

book-IsBooked :
    (now amount : ℕ) (row : Row) (r : SettlementResult) (db : Store)
    → IsBooked db
    → IsBooked (book now amount row r db).1
book-IsBooked now amount row SettlementResult.paid db h = h
book-IsBooked now amount row SettlementResult.pending db h =
    record_shortfall-IsBooked now amount row.1.attempts row.0 db h
book-IsBooked now amount row (skipped _) db h = h

collect_on-IsBooked :
    (now s wallet_id : ℕ) (c : ChargingSession) (row : Row) (db : Store)
    → IsBooked db
    → IsSnapshot row db
    → row.1.purpose ≡ for_session
    → IsBooked (collect_on now s row.1.amount_paise wallet_id c row db).1
collect_on-IsBooked now s wallet_id c row db h read purposed =
    elim (Bool-cases (is_paid row.1.status)) [
      | inl already ↦ rw already h
      | inr due ↦ rw due (
          book-IsBooked now row.1.amount_paise row _ _
            (debit_and_claim-IsBooked now s wallet_id row c db h read purposed))
    ]

collect-IsBooked :
    (ids : ObjectIds) (now s amount : ℕ) (c : ChargingSession) (db : Store)
    → IsBooked db
    → IsBilled db
    → find_by_id s db.sessions ≡ some c
    → c.amount_paise ≡ some amount
    → IsBooked (collect ids now s amount c db).1
unfolding collect
collect-IsBooked ids now s amount c db h billed stored priced =
    let opened = get_or_create_wallet (ids.fresh _ db.wallets) c.user_id db in
    let h₁ = get_or_create_wallet-IsBooked ids c.user_id db h in
    let same = get_or_create_wallet_payments (ids.fresh _ db.wallets) c.user_id db in
    let live = live_payment ids s amount opened.0.0 c opened.1 in
    let h₂ = live_payment-IsBooked ids s amount opened.0.0 c opened.1 h₁ in
    let (read, purposed, exact) =
      live_payment_row ids s amount opened.0.0 c opened.1 h₁.payments
        (λ k p found ref. billed.bill k p s c (rw (sym same) found) ref stored) priced in
    subst (λ a. IsBooked (collect_on now s a opened.0.0 c live.0 live.1).1) exact
      (collect_on-IsBooked now s opened.0.0 c live.0 live.1 h₂ read purposed)

-- Settling a session keeps the books on every branch, where every payment that names a session is a
-- debit of the amount that the session was priced at.
pub settle_session-IsBooked :
    (ids : ObjectIds) (now s : ℕ) (db : Store)
    → IsBooked db
    → IsBilled db
    → IsBooked (settle_session ids now s db).1
unfolding settle_session settle_priced
settle_session-IsBooked ids now s db h billed = elim (Option-cases (find_by_id s db.sessions)) [
  | inl missing ↦ rw (missing, settle_session) h
  | inr (c, stored) ↦
      rw (stored, settle_session) (priced c stored c.payment_status c.amount_paise refl)
]
  where
    priced :
        (c : ChargingSession)
        → find_by_id s db.sessions ≡ some c
        → (status : SessionPaymentStatus) (amount : Option ℕ) → c.amount_paise ≡ amount
        → IsBooked (settle_priced ids now s status amount c db).1
    priced c stored collected amount e = h
    priced c stored unpaid none e = h
    priced c stored unpaid (some amount) e = elim (Bool-cases (amount == 0)) [
      | inl free ↦ rw free h
      | inr due ↦ rw due (collect-IsBooked ids now s amount c db h billed stored e)
    ]
