-- ===== src/Payment/Booked/Claim.antt =====
-- The claim of a recharge in the transaction of `verifyAndCredit`: what it writes, and that of two
-- callers who both read the payment as pending only one credits it
-- (backend/src/services/payment.service.ts).
use ev_charger_management_pl.Prelude.{
  ℕ, ◌+◌, ◌≡◌, ◌⊎◌, refl, none, some, Bool, true, false, is_some, is_ref, inl, inr, Bool-cases,
  Option-cases, arith,
}
use ev_charger_management_pl.Prelude.Result.{Result, ok, err}
use ev_charger_management_pl.Prelude.Table.{find_by_id, find_by_id-save_self, any_other}
use ev_charger_management_pl.Models.Wallet.{
  WalletTransactionType, recharge, session_debit, refund, credit,
}
use ev_charger_management_pl.Models.Payment.{
  wallet_recharge, PaymentStatus, pending, paid, is_pending, PaymentTransaction,
}
use ev_charger_management_pl.Store.{Store}
use ev_charger_management_pl.Wallet.{MovementInput, apply_movement}
use ev_charger_management_pl.Payment.Recharge.{
  PaymentError, Row, put_payment, claim_recharge, credit_recharge, claim_and_credit,
}
use ev_charger_management_pl.Payment.Booked.Invariant.{IsBooked, added, movement_payments}
use ev_charger_management_pl.Payment.Booked.Moves.{due_of, movement-put_payment, moved-IsBooked}

-- The credit of a recharge that was read as `payment` under `id`.
abbrev pub credit_of : Row → MovementInput
credit_of row = record {
  wallet_id = row.1.wallet_id;
  user_id = row.1.user_id;
  amount_paise = row.1.amount_paise;
  type = recharge;
  payment_transaction_id = some row.0;
  charging_session_id = none;
}

abbrev pub claimed_as : (now provider_payment_id : ℕ) → PaymentTransaction → PaymentTransaction
claimed_as now provider_payment_id p = record p {
  status = paid;
  provider_payment_id = some provider_payment_id;
  paid_at = some now;
}

abbrev pub is_claimed : Result PaymentError Bool → Bool
is_claimed (ok claimed) = claimed
is_claimed (err _) = false

-- The transaction with its movement, when the claim matches.
credit_claimed :
    (now pid : ℕ) (row : Row) (p : PaymentTransaction) (db : Store)
    → claim_recharge now row.0 pid db ≡ (ok true, put_payment row.0 (claimed_as now pid p) db)
    → ((claim_and_credit now pid row db).1 ≡ db)
        × (is_claimed (claim_and_credit now pid row db).0 ≡ false)
      ⊎ ((is_some (apply_movement (credit_of row) credit db).0 ≡ true)
          × ((claim_and_credit now pid row db).1
              ≡ put_payment row.0
                  (claimed_as now pid p)
                  (apply_movement (credit_of row) credit db).1))
unfolding claim_and_credit credit_recharge
credit_claimed now pid row p db e =
    let input = credit_of row in
    elim (Option-cases (apply_movement input credit db).0) [
      | inl refused ↦ inl (
        ground (arith, e, movement-put_payment input credit row.0 (claimed_as now pid p) db),
        ground (arith, e, movement-put_payment input credit row.0 (claimed_as now pid p) db),
      )
      | inr (r, done) ↦ inr (
        rw done refl,
        ground (arith, e, movement-put_payment input credit row.0 (claimed_as now pid p) db),
      )
    ]

pending_lem : (s : PaymentStatus) → is_pending s ≡ true → s ≡ pending
pending_lem s h = ground arith

-- A claim matches a stored payment that is pending, or writes nothing.
claim_cases :
    (now pid k : ℕ) (db : Store)
    → ((claim_recharge now k pid db).1 ≡ db) × (is_claimed (claim_recharge now k pid db).0 ≡ false)
      ⊎ ((p : PaymentTransaction) × (find_by_id k db.payments ≡ some p)
          × (p.status ≡ pending)
          × (claim_recharge now k pid db ≡ (ok true, put_payment k (claimed_as now pid p) db)))
unfolding claim_recharge
claim_cases now pid k db = elim (Option-cases (find_by_id k db.payments)) [
  | inl missing ↦ inl (ground arith, ground arith)
  | inr (p, stored) ↦ elim (Bool-cases (is_pending p.status)) [
    | inr other ↦ inl (ground arith, ground arith)
    | inl open_still ↦
        elim (Bool-cases (
          any_other k (λ (q : PaymentTransaction). is_ref q.provider_payment_id pid) db.payments)) [
            | inl taken ↦ inl (ground arith, ground arith)
            | inr clear ↦ inr (p, stored, pending_lem p.status open_still, ground arith)
          ]
  ]
]

not_claimed :
    (now pid : ℕ) (row : Row) (db : Store)
    → is_claimed (claim_recharge now row.0 pid db).0 ≡ false
    → (claim_recharge now row.0 pid db).1 ≡ db
    → ((claim_and_credit now pid row db).1 ≡ db)
      × (is_claimed (claim_and_credit now pid row db).0 ≡ false)
unfolding claim_and_credit
not_claimed now pid row db h e = (ground arith, ground arith)

-- The transaction writes nothing, or it claims a stored pending payment and credits it.
pub claim_and_credit_cases :
    (now pid : ℕ) (row : Row) (db : Store)
    → ((claim_and_credit now pid row db).1 ≡ db)
        × (is_claimed (claim_and_credit now pid row db).0 ≡ false)
      ⊎ ((p : PaymentTransaction) × (find_by_id row.0 db.payments ≡ some p)
          × (p.status ≡ pending)
          × (is_some (apply_movement (credit_of row) credit db).0 ≡ true)
          × ((claim_and_credit now pid row db).1
              ≡ put_payment row.0
                  (claimed_as now pid p)
                  (apply_movement (credit_of row) credit db).1))
claim_and_credit_cases now pid row db = elim (claim_cases now pid row.0 db) [
  | inl (same, not_ours) ↦ inl (not_claimed now pid row db not_ours same)
  | inr (p, stored, fresh, e) ↦ elim (credit_claimed now pid row p db e) [
    | inl aborted ↦ inl aborted
    | inr (done, after) ↦ inr (p, stored, fresh, done, after)
  ]
]

-- The store after a won claim has the payment paid.
after_claim :
    (now pid : ℕ) (row : Row) (db : Store)
    → is_claimed (claim_and_credit now pid row db).0 ≡ true
    → (p : PaymentTransaction) × (find_by_id row.0 (claim_and_credit now pid row db).1.payments
        ≡ some p)
      × (p.status ≡ paid)
after_claim now pid row db h = elim (claim_and_credit_cases now pid row db) [
  | inl (same, lost) ↦ absurd (cc (h, lost))
  | inr (p, stored, fresh, done, after) ↦ (
    claimed_as now pid p,
    rw after (
        find_by_id-save_self row.0 (claimed_as now pid p) {b = p}
          (apply_movement (credit_of row) credit db).1.payments
          (rw (movement_payments (credit_of row) credit db) stored)),
    refl,
  )
]

lost_claim :
    (now pid : ℕ) (row : Row) (db : Store) (p : PaymentTransaction)
    → find_by_id row.0 db.payments ≡ some p
    → p.status ≡ paid
    → claim_and_credit now pid row db ≡ (ok false, db)
unfolding claim_and_credit claim_recharge
lost_claim now pid row db p stored done = ground arith

-- Two callers may both have read the payment as pending. Once one of them has won the claim, the
-- other's transaction writes nothing and reports that it did not claim, whichever provider payment
-- it names.
pub second_claim_loses :
    (now now' pid pid' : ℕ) (row row' : Row) (db : Store)
    → row'.0 ≡ row.0
    → (claim_and_credit now pid row db).0 ≡ ok true
    → let after = (claim_and_credit now pid row db).1 in
      claim_and_credit now' pid' row' after ≡ (ok false, after)
second_claim_loses now now' pid pid' row row' db same won =
    let (p, stored, done) = after_claim now pid row db (rw won refl) in
    lost_claim now' pid' row' (claim_and_credit now pid row db).1 p (rw same stored) done

-- A record that was read from the store and may have been written since: what the money depends on
-- is as it was read.
pub record IsSnapshot (row : Row) (db : Store) : Type 0 where
  pub purpose :
      (p : PaymentTransaction) → find_by_id row.0 db.payments ≡ some p → p.purpose ≡ row.1.purpose
  pub amount :
      (p : PaymentTransaction)
      → find_by_id row.0 db.payments ≡ some p
      → p.amount_paise ≡ row.1.amount_paise

due_of-claimed :
    (now pid : ℕ) (row : Row) (p : PaymentTransaction) (t : WalletTransactionType)
    → p.status ≡ pending
    → p.purpose ≡ wallet_recharge
    → p.amount_paise ≡ row.1.amount_paise
    → due_of t (claimed_as now pid p) ≡ added (credit_of row) t row.0 + due_of t p
due_of-claimed now pid row p recharge h e a = ground arith
due_of-claimed now pid row p session_debit h e a = ground arith
due_of-claimed now pid row p refund h e a = ground arith

-- A claim, won or lost, keeps the books, also on a record that was read a while ago.
pub claim_and_credit-IsBooked :
    (now pid : ℕ) (row : Row) (db : Store)
    → IsBooked db
    → IsSnapshot row db
    → row.1.purpose ≡ wallet_recharge
    → IsBooked (claim_and_credit now pid row db).1
claim_and_credit-IsBooked now pid row db h read recharged =
    elim (claim_and_credit_cases now pid row db) [
      | inl (same, lost) ↦ rw same h
      | inr (p, stored, fresh, done, after) ↦
          let purposed : p.purpose ≡ wallet_recharge = cc (read.purpose p stored, recharged) in
          rw after (
            moved-IsBooked (credit_of row) credit row.0 p (claimed_as now pid p) db h stored refl
              refl done (λ t. due_of-claimed now pid row p t fresh purposed (read.amount p stored)))
    ]
