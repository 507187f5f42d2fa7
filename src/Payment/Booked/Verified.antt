-- ===== src/Payment/Booked/Verified.antt =====
-- When `verifyAndCredit` of backend/src/services/payment.service.ts writes at all: only for a
-- signature that verifies, on a pending payment of the order, for its owner.
use ev_charger_management_pl.Prelude.{
  ℕ, ◌≡◌, ◌⊎◌, refl, sym, ap, ◌∙◌, Option, some, true, false, Bool, Option-cases, Bool-cases, inl,
  inr, is_ref, arith,
}
use ev_charger_management_pl.Prelude.Result.{Result, ok, err, Result-cases}
use ev_charger_management_pl.Prelude.Table.{
  IsTable, find_one, find_by_id, find_one_sound, find_one-save,
}
use ev_charger_management_pl.Models.Payment.{PaymentStatus, pending, paid, PaymentTransaction}
use ev_charger_management_pl.Store.{Store}
use ev_charger_management_pl.Payment.Provider.{Provider, verify_payment_signature}
use ev_charger_management_pl.Payment.Recharge.{
  PaymentError, Row, VerifyInput, Checked, to_claim, already_credited, check_payment,
  claim_and_credit, answer, verify_and_credit, not_owner, by_status, claim_checked,
}
use ev_charger_management_pl.Models.Wallet.{credit}
use ev_charger_management_pl.Payment.Booked.Invariant.{movement_payments}
use ev_charger_management_pl.Payment.Booked.Claim.{credit_of, claimed_as, claim_and_credit_cases}

abbrev pub of_order : ℕ → PaymentTransaction → Bool
of_order order_id p = is_ref p.provider_order_id order_id

-- The checks write nothing.
check_payment_store :
    (env : Provider) (input : VerifyInput) (actor_id : Option ℕ) (db : Store)
    → (check_payment env input actor_id db).1 ≡ db
unfolding check_payment
check_payment_store env input actor_id db = ground arith

by_status_pending :
    (status : PaymentStatus) (row row' : Row) (db : Store)
    → (by_status status row' db).0 ≡ ok (to_claim row)
    → (row ≡ row') × (status ≡ pending)
by_status_pending status row row' db h = ground arith

check_payment_ok :
    (env : Provider) (input : VerifyInput) (actor_id : Option ℕ) (row : Row) (db : Store)
    → (check_payment env input actor_id db).0 ≡ ok (to_claim row)
    → (verify_payment_signature env input.provider_order_id input.provider_payment_id
          input.signature
        ≡ true)
      × (find_one (of_order input.provider_order_id) db.payments ≡ some row)
      × (row.1.status ≡ pending)
      × (not_owner actor_id row.1.user_id ≡ false)
unfolding check_payment
check_payment_ok env input actor_id row db h =
    elim (Bool-cases (
      verify_payment_signature env input.provider_order_id input.provider_payment_id
        input.signature)) [
          | inr forged ↦ absurd (ground arith)
          | inl genuine ↦
              elim (Option-cases (find_one (of_order input.provider_order_id) db.payments)) [
                | inl missing ↦ absurd (ground arith)
                | inr (row', found) ↦ elim (Bool-cases (not_owner actor_id row'.1.user_id)) [
                  | inl foreign ↦ absurd (ground arith)
                  | inr own ↦
                      let e : (check_payment env input actor_id db).0
                          ≡ (by_status row'.1.status row' db).0 =
                        ground arith in
                      let (same, waits) = by_status_pending row'.1.status row row' db (sym e ∙ h) in
                      (genuine, rw same found, rw same waits, rw same own)
                ]
              ]
        ]

answer_store :
    (pid : ℕ) (row : Row) (claimed : Result PaymentError Bool) (db : Store)
    → (answer pid row claimed db).1 ≡ db
unfolding answer
answer_store pid row (ok claimed) db = ground arith
answer_store pid row (err PaymentError.duplicate_key) db = ground arith
answer_store pid row (err _) db = refl

claim_checked_cases :
    (now pid : ℕ) (checked : Checked) (db : Store)
    → ((claim_checked now pid checked db).1 ≡ db)
      ⊎ ((row : Row) × (checked ≡ to_claim row)
          × ((claim_checked now pid checked db).1 ≡ (claim_and_credit now pid row db).1))
claim_checked_cases now pid (already_credited row) db = inl refl
claim_checked_cases now pid (to_claim row) db = inr (
  row,
  refl,
  answer_store pid row (claim_and_credit now pid row db).0 (claim_and_credit now pid row db).1,
)

-- A verification changes the store only through one claim, and only when the signature of the
-- provider verifies, the payment of the order is stored and was pending, and the caller, if there is
-- one, owns it. On every other path nothing is written.
pub verify_writes :
    (env : Provider) (now : ℕ) (input : VerifyInput) (actor_id : Option ℕ) (db : Store)
    → let after = (verify_and_credit env now input actor_id db).1 in
      (after ≡ db)
      ⊎ ((row : Row) × (verify_payment_signature env input.provider_order_id
              input.provider_payment_id input.signature
            ≡ true)
          × (find_one (of_order input.provider_order_id) db.payments ≡ some row)
          × (row.1.status ≡ pending)
          × (not_owner actor_id row.1.user_id ≡ false)
          × (after ≡ (claim_and_credit now input.provider_payment_id row db).1))
unfolding verify_and_credit
verify_writes env now input actor_id db =
    elim (Result-cases (check_payment env input actor_id db).0) [
      | inl (e, thrown) ↦ inl (ground (arith, thrown, check_payment_store env input actor_id db))
      | inr (checked, passed) ↦
          elim (claim_checked_cases now input.provider_payment_id checked db) [
            | inl same ↦ inl (ground (arith, check_payment_store env input actor_id db))
            | inr (row, to, e) ↦
                let (genuine, found, waits, own) =
                  check_payment_ok env input actor_id row db (passed ∙ ap ok to) in
                inr (
                  row,
                  genuine,
                  found,
                  waits,
                  own,
                  ground (arith, check_payment_store env input actor_id db),
                )
          ]
    ]

already_paid_answer :
    (env : Provider) (now : ℕ) (input : VerifyInput) (actor_id : Option ℕ) (row : Row) (db : Store)
    → verify_payment_signature env input.provider_order_id input.provider_payment_id input.signature
      ≡ true
    → find_one (of_order input.provider_order_id) db.payments ≡ some row
    → not_owner actor_id row.1.user_id ≡ false
    → row.1.status ≡ paid
    → verify_and_credit env now input actor_id db
      ≡ (ok (record { payment = row; already_processed = true }), db)
unfolding verify_and_credit check_payment
already_paid_answer env now input actor_id row db genuine found own done =
    ground (arith, genuine, found, own, done)

same_payment :
    (o : Option PaymentTransaction) {p q : PaymentTransaction} → o ≡ some p → o ≡ some q → p ≡ q
same_payment o h e = ground arith

-- The payment of the order, as a won claim leaves it.
claimed_found :
    (now pid order_id : ℕ) (row : Row) (db : Store)
    → IsTable db.payments
    → find_one (of_order order_id) db.payments ≡ some row
    → (claim_and_credit now pid row db).0 ≡ ok true
    → find_one (of_order order_id) (claim_and_credit now pid row db).1.payments
      ≡ some (row.0, claimed_as now pid row.1)
claimed_found now pid order_id (k, p₀) db h found won =
    elim (claim_and_credit_cases now pid (k, p₀) db) [
      | inl (same, lost) ↦ absurd (cc (rw won at lost))
      | inr (p, stored, waits, moved, after) ↦
          let (there, fits) = find_one_sound (of_order order_id) db.payments k p₀ h found in
          let one : p ≡ p₀ = same_payment (find_by_id k db.payments) stored there in
          let rows =
            find_one-save (of_order order_id) k p₀ (claimed_as now pid p₀) db.payments found h
              fits in
          rw (after, movement_payments (credit_of (k, p₀)) credit db, one) rows
    ]

-- A verification that is sent again after its payment was claimed and credited, in any later store in
-- which the payment of the order is still as the claim left it, whatever else changed, answers with the
-- paid payment as already processed and writes nothing.
pub verified_again :
    (env : Provider) (now now' : ℕ) (input : VerifyInput) (actor_id : Option ℕ) (row : Row)
    (db later : Store)
    → IsTable db.payments
    → verify_payment_signature env input.provider_order_id input.provider_payment_id input.signature
      ≡ true
    → find_one (of_order input.provider_order_id) db.payments ≡ some row
    → not_owner actor_id row.1.user_id ≡ false
    → (claim_and_credit now input.provider_payment_id row db).0 ≡ ok true
    → find_one (of_order input.provider_order_id) later.payments
      ≡ find_one
          (of_order input.provider_order_id)
          (claim_and_credit now input.provider_payment_id row db).1.payments
    → verify_and_credit env now' input actor_id later ≡ (
      ok (record {
        payment = (row.0, claimed_as now input.provider_payment_id row.1);
        already_processed = true;
      }),
      later,
    )
verified_again env now now' input actor_id row db later h genuine found own won kept =
    already_paid_answer env now' input actor_id
      (row.0, claimed_as now input.provider_payment_id row.1) later genuine
      (kept
        ∙ claimed_found now input.provider_payment_id input.provider_order_id row db h found won)
      own refl
