-- ===== src/Tests/Payments.antt =====
-- Runs of the payment code on sample stores.
use ev_charger_management_pl.Prelude.{
  ℕ, ◌+◌, ◌≡◌, ◌⊎◌, refl, Option, none, some, true, false, List, [], arith,
}
use ev_charger_management_pl.Prelude.Result.{ok, is_ok}
use ev_charger_management_pl.Prelude.Table.{IsTable, find_by_id, find_one, any_other, save}
use ev_charger_management_pl.Models.Wallet.{refund}
use ev_charger_management_pl.Models.Payment.{pending, paid}
use ev_charger_management_pl.Store.{Store}
use ev_charger_management_pl.Wallet.{
  apply_movement, updated_wallet, atomic_credit, atomic_debit, balance_before, reconcile,
}
use ev_charger_management_pl.Payment.Recharge.{
  Row, claim_recharge, credit_recharge, claim_and_credit, create_recharge_order,
}
use ev_charger_management_pl.Payment.Settlement.{settle_session}
use ev_charger_management_pl.Payment.Refund.{check_refund, reverse_recharge, mark_refunded}
use ev_charger_management_pl.Payment.Booked.Invariant.{IsBooked, total_for}
use ev_charger_management_pl.Payment.Booked.Claim.{IsSnapshot, second_claim_loses}
use ev_charger_management_pl.Payment.Booked.Settle.{IsBilled, settle_session-IsBooked}
use ev_charger_management_pl.Payment.Booked.Refunded.{refund_race}
use ev_charger_management_pl.Payment.Booked.Reach.{
  recharge_ordered, recharge_claimed, here, after, no_money, Reachable-IsBooked,
  Reachable-reconcile,
}
use ev_charger_management_pl.Payment.Provider.{
  Provider, signing_secret, verify_payment_signature, verify_webhook_signature,
}
use ev_charger_management_pl.Payment.Recharge.{
  VerifyInput, verify_and_credit, not_owner, WebhookEvent, handle_webhook,
}
use ev_charger_management_pl.Payment.Booked.Claim.{claimed_as}
use ev_charger_management_pl.Payment.Booked.Verified.{of_order, verify_writes, verified_again}
use ev_charger_management_pl.Payment.Booked.Webhook.{self_signed, webhook_writes}
use ev_charger_management_pl.Tests.Sample.{
  counted_ids, admin, recharge_of, waiting, waiting-IsBooked, credited, credited-IsBooked,
}

abbrev waiting_row : Row
waiting_row = (7, recharge_of pending 70)

waiting_row-IsSnapshot : IsSnapshot waiting_row waiting
unfolding find_by_id
waiting_row-IsSnapshot = record { purpose = λ p h. ground arith; amount = λ p h. ground arith }

Reachable-IsBooked_example : IsBooked (claim_and_credit 500 900 waiting_row waiting).1
Reachable-IsBooked_example =
    Reachable-IsBooked counted_ids waiting (claim_and_credit 500 900 waiting_row waiting).1
      waiting-IsBooked
      (after waiting (claim_and_credit 500 900 waiting_row waiting).1 here
        (recharge_claimed 500 900 waiting_row waiting waiting_row-IsSnapshot refl))

abbrev empty : Store
empty = no_money [] [] [] []

abbrev ordered : Store
ordered =
    (create_recharge_order counted_ids 9 5_000
      (some (record { order_id = 70; amount_paise = 5_000 })) empty).1

Reachable-reconcile_example : (reconcile 0 ordered).matches ≡ true
Reachable-reconcile_example = Reachable-reconcile counted_ids [] [] [] [] ordered 0 (
    after empty ordered here
      (recharge_ordered 9 5_000 (some (record { order_id = 70; amount_paise = 5_000 })) empty))

won : (claim_and_credit 500 900 waiting_row waiting).0 ≡ ok true
unfolding claim_and_credit claim_recharge credit_recharge apply_movement updated_wallet
    atomic_credit find_by_id any_other save balance_before
won = refl

second_claim_loses_example :
    claim_and_credit 501 901 waiting_row (claim_and_credit 500 900 waiting_row waiting).1
    ≡ (ok false, (claim_and_credit 500 900 waiting_row waiting).1)
second_claim_loses_example =
    second_claim_loses 500 501 900 901 waiting_row waiting_row waiting refl won

credited-IsBilled : IsBilled credited
unfolding find_by_id
credited-IsBilled = record { bill = λ k p s c found ref priced. ground arith }

settle_session-IsBooked_example : IsBooked (settle_session counted_ids 600 3 credited).1
settle_session-IsBooked_example =
    settle_session-IsBooked counted_ids 600 3 credited credited-IsBooked credited-IsBilled

abbrev paid_row : Row
paid_row = (7, recharge_of paid 70)

checked : (check_refund admin 7 credited).0 ≡ ok paid_row
unfolding check_refund find_by_id
checked = refl

reversed_once : is_ok (reverse_recharge paid_row credited).0 ≡ true
unfolding reverse_recharge mark_refunded apply_movement updated_wallet atomic_debit find_by_id save
    balance_before
reversed_once = refl

reversed_twice : is_ok (reverse_recharge paid_row (reverse_recharge paid_row credited).1).0 ≡ true
unfolding reverse_recharge mark_refunded apply_movement updated_wallet atomic_debit find_by_id save
    balance_before
reversed_twice = refl

refund_race_example :
    total_for refund 7 (reverse_recharge paid_row (reverse_recharge paid_row credited).1).1.ledger
    ≡ 5_000 + 5_000
refund_race_example =
    refund_race admin admin 7 paid_row paid_row credited credited-IsBooked checked checked
      reversed_once reversed_twice

-- A provider that signs with its secret alone.
abbrev keyed : Provider
keyed = record {
  hmac_sha256 = λ secret payload. secret;
  razorpay_key_id = none;
  razorpay_key_secret = none;
  razorpay_webhook_secret = none;
  stub_secret = 42;
}

abbrev checkout : VerifyInput
checkout = record { provider_order_id = 70; provider_payment_id = 900; signature = 42 }

waiting_found : find_one (of_order 70) waiting.payments ≡ some waiting_row
unfolding find_one
waiting_found = refl

genuine : verify_payment_signature keyed 70 900 42 ≡ true
unfolding verify_payment_signature signing_secret
genuine = refl

verify_writes_example :
    let after = (verify_and_credit keyed 500 checkout (some 9) waiting).1 in
    (after ≡ waiting)
    ⊎ ((row : Row) × (verify_payment_signature keyed 70 900 42 ≡ true)
        × (find_one (of_order 70) waiting.payments ≡ some row)
        × (row.1.status ≡ pending)
        × (not_owner (some 9) row.1.user_id ≡ false)
        × (after ≡ (claim_and_credit 500 900 row waiting).1))
verify_writes_example = verify_writes keyed 500 checkout (some 9) waiting

waiting-IsTable : IsTable waiting.payments
unfolding IsTable find_by_id
waiting-IsTable = (refl, tt)

-- The store some time later, when the money is spent.
abbrev spent : Store
spent = record (claim_and_credit 500 900 waiting_row waiting).1 { wallets = []; ledger = [] }

verified_again_example : verify_and_credit keyed 800 checkout (some 9) spent ≡ (
  ok (record {
    payment = (7, claimed_as 500 900 (recharge_of pending 70));
    already_processed = true;
  }),
  spent,
)
verified_again_example =
    verified_again keyed 500 800 checkout (some 9) waiting_row waiting spent waiting-IsTable genuine
      waiting_found refl won refl

abbrev capture_event : WebhookEvent
capture_event = record { is_payment_captured = true; payment_id = some 900; order_id = some 70 }

abbrev parse_capture : List ℕ → Option WebhookEvent
parse_capture body = some capture_event

webhook_writes_example :
    let after = (handle_webhook keyed parse_capture 500 [] 42 waiting).1 in
    (after ≡ waiting)
    ⊎ ((verify_webhook_signature keyed [] 42 ≡ true)
        × (event : WebhookEvent) × (order_id : ℕ) × (payment_id : ℕ) × (parse_capture []
            ≡ some event)
        × (event.is_payment_captured ≡ true)
        × (event.order_id ≡ some order_id)
        × (event.payment_id ≡ some payment_id)
        × (verify_payment_signature keyed order_id payment_id
              (self_signed keyed order_id payment_id).signature
            ≡ true)
        × (after
            ≡ (verify_and_credit keyed 500 (self_signed keyed order_id payment_id) none waiting).1))
webhook_writes_example = webhook_writes keyed parse_capture 500 [] 42 waiting
