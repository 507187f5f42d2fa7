-- ===== src/Payment/Recharge/Defs.antt =====
-- The recharge functions of backend/src/services/payment.service.ts.
use ev_charger_management_pl.Prelude.{
  ℕ, Option, none, some, Bool, true, false, not, ◌||◌, ◌==◌, ltb, is_ref, if◌then◌else◌,
}
use ev_charger_management_pl.Prelude.Result.{
  Result, ok, err, Action, pure, throw, gets, require, throw_if, with_transaction, ◌>>=◌, ◌>>◌,
}
use ev_charger_management_pl.Prelude.Table.{
  ObjectIds, find_by_id, find_one, save, create, any_other,
}
use ev_charger_management_pl.Models.Wallet.{recharge, is_active, credit}
use ev_charger_management_pl.Models.Payment.{
  PaymentStatus, pending, paid, failed, is_pending, wallet_recharge, razorpay, provider_unreachable,
  PaymentTransaction,
}
use ev_charger_management_pl.Store.{Store}
use ev_charger_management_pl.Wallet.{get_or_create_wallet, apply_movement}
use ev_charger_management_pl.Payment.Provider.{Provider, ProviderOrder, verify_payment_signature}

pub data PaymentError : Type 0 where
  recharge_out_of_range wallet_blocked provider_unavailable : PaymentError
  verification_failed payment_not_found wallet_cannot_be_credited duplicate_key : PaymentError
  already : PaymentStatus → PaymentError
  invalid_webhook_signature malformed_webhook : PaymentError

abbrev pub min_recharge_paise : ℕ
min_recharge_paise = 1_000

abbrev pub max_recharge_paise : ℕ
max_recharge_paise = 1_000_000

-- A payment record and its id.
abbrev pub Row : Type 0
Row = ℕ × PaymentTransaction

abbrev pub put_payment : ℕ → PaymentTransaction → Store → Store
put_payment k p db = record db { payments = save k p db.payments }

-- The order that the provider makes, or nothing when the call throws.
unfoldable pub create_recharge_order :
    ObjectIds → (user_id amount_paise : ℕ) → Option ProviderOrder → Action Store PaymentError Row
create_recharge_order ids user_id amount_paise answer db =
    if ltb amount_paise min_recharge_paise || ltb max_recharge_paise amount_paise
    then (err recharge_out_of_range, db)
    else let ((wallet_id, wallet), db₁) =
        get_or_create_wallet (ids.fresh _ db.wallets) user_id db in
      if not (is_active wallet.status)
      then (err wallet_blocked, db₁)
      else let id = ids.fresh _ db₁.payments in
        let payment : PaymentTransaction = record {
          user_id = user_id;
          wallet_id = wallet_id;
          purpose = wallet_recharge;
          provider = razorpay;
          charging_session_id = none;
          company_id = none;
          amount_paise = amount_paise;
          status = pending;
          provider_order_id = none;
          provider_payment_id = none;
          attempts = 0;
          next_attempt_at = none;
          failure_reason = none;
          paid_at = none;
        } in
        let db₂ = record db₁ { payments = create id payment db₁.payments } in
        elim answer [
          | none ↦ (
            err provider_unavailable,
            put_payment id
                (record payment { status = failed; failure_reason = some provider_unreachable })
                db₂,
          )
          | some order ↦
              let ordered = record payment { provider_order_id = some order.order_id } in
              if any_other id
                (λ (q : PaymentTransaction). is_ref q.provider_order_id order.order_id) db₂.payments
              then (err duplicate_key, db₂)
              else (ok (id, ordered), put_payment id ordered db₂)
        ]

pub record VerifyInput : Type 0 where
  pub provider_order_id : ℕ
  pub provider_payment_id : ℕ
  pub signature : ℕ

-- What the checks before the transaction decide.
pub data Checked : Type 0 where
  already_credited : Row → Checked
  to_claim : Row → Checked

abbrev pub not_owner : Option ℕ → ℕ → Bool
not_owner none _ = false
not_owner (some actor_id) user_id = not (user_id == actor_id)

abbrev pub by_status : PaymentStatus → Row → Action Store PaymentError Checked
by_status pending row = pure (to_claim row)
by_status paid row = pure (already_credited row)
by_status status row = throw (already status)

unfoldable pub check_payment : Provider → VerifyInput → Option ℕ → Action Store PaymentError Checked
check_payment env input actor_id = do
  throw_if
      (not (
        verify_payment_signature env input.provider_order_id input.provider_payment_id
          input.signature))
      verification_failed
  found ← gets (λ db.
      find_one (λ (p : PaymentTransaction). is_ref p.provider_order_id input.provider_order_id)
        db.payments)
  row ← require found payment_not_found
  throw_if (not_owner actor_id row.1.user_id) payment_not_found
  by_status row.1.status row

-- The `findOneAndUpdate` that claims the payment, with the status in its filter: whether it
-- matched. The unique index refuses a provider payment that another record has.
unfoldable pub claim_recharge : (now id provider_payment_id : ℕ) → Action Store PaymentError Bool
claim_recharge now id provider_payment_id db = elim (find_by_id id db.payments) [
  | none ↦ (ok false, db)
  | some p ↦
      if is_pending p.status
      then if any_other id
          (λ (q : PaymentTransaction). is_ref q.provider_payment_id provider_payment_id) db.payments
        then (err duplicate_key, db)
        else (
          ok true,
          put_payment id
              (record p {
                status = paid;
                provider_payment_id = some provider_payment_id;
                paid_at = some now;
              })
              db,
        )
      else (ok false, db)
]

-- The credit of a claimed payment.
unfoldable pub credit_recharge : Row → Action Store PaymentError (Unit {0})
credit_recharge (id, payment) db =
    let (movement, db') =
      apply_movement
        (record {
          wallet_id = payment.wallet_id;
          user_id = payment.user_id;
          amount_paise = payment.amount_paise;
          type = recharge;
          payment_transaction_id = some id;
          charging_session_id = none;
        })
        credit db in
    elim movement [ none ↦ (err wallet_cannot_be_credited, db') | some _ ↦ (ok tt, db') ]

abbrev credit_if_claimed : Bool → Row → Action Store PaymentError Bool
credit_if_claimed false row = pure false
credit_if_claimed true row = credit_recharge row >> pure true

-- The transaction of `verifyAndCredit`: whether this caller won the claim.
unfoldable pub claim_and_credit :
    (now provider_payment_id : ℕ) → Row → Action Store PaymentError Bool
claim_and_credit now provider_payment_id row =
    with_transaction
      do claimed ← claim_recharge now row.0 provider_payment_id; credit_if_claimed claimed row

pub record Verified : Type 0 where
  pub payment : Row
  pub already_processed : Bool

abbrev owner_of_payment : ℕ → Store → Option Row
owner_of_payment provider_payment_id db =
    find_one (λ (p : PaymentTransaction). is_ref p.provider_payment_id provider_payment_id)
      db.payments

-- What `verifyAndCredit` answers once its transaction has ended. On a duplicate key another record
-- already owns this provider payment.
unfoldable pub answer : ℕ → Row → Result PaymentError Bool → Action Store PaymentError Verified
answer provider_payment_id row (ok claimed) db = elim (find_by_id row.0 db.payments) [
  | none ↦ (err payment_not_found, db)
  | some settled ↦ (ok (record { payment = (row.0, settled); already_processed = not claimed }), db)
]
answer provider_payment_id row (err duplicate_key) db =
    elim (owner_of_payment provider_payment_id db) [
      | none ↦ (err duplicate_key, db)
      | some existing ↦ (ok (record { payment = existing; already_processed = true }), db)
    ]
answer provider_payment_id row (err e) db = (err e, db)

abbrev pub claim_checked : ℕ → ℕ → Checked → Action Store PaymentError Verified
claim_checked now provider_payment_id (already_credited row) db =
    (ok (record { payment = row; already_processed = true }), db)
claim_checked now provider_payment_id (to_claim row) db =
    let (claimed, db') = claim_and_credit now provider_payment_id row db in
    answer provider_payment_id row claimed db'

unfoldable pub verify_and_credit :
    Provider → (now : ℕ) → VerifyInput → Option ℕ → Action Store PaymentError Verified
verify_and_credit env now input actor_id =
    check_payment env input actor_id >>= claim_checked now input.provider_payment_id
