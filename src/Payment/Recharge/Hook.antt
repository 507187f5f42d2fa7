-- ===== src/Payment/Recharge/Hook.antt =====
-- The webhook of the payment provider: `handleWebhook` of
-- backend/src/services/payment.service.ts.
use ev_charger_management_pl.Prelude.{ℕ, Option, none, some, Bool, not, is_ref, if◌then◌else◌, List}
use ev_charger_management_pl.Prelude.Result.{ok, Action, pure, require, throw_if, ◌>>=◌, ◌>>◌}
use ev_charger_management_pl.Prelude.Table.{find_one}
use ev_charger_management_pl.Models.Payment.{is_paid, PaymentTransaction}
use ev_charger_management_pl.Store.{Store}
use ev_charger_management_pl.Payment.Provider.{
  Provider, payment_payload, verify_webhook_signature, sign_payload,
}
use ev_charger_management_pl.Payment.Recharge.Defs.{
  PaymentError, invalid_webhook_signature, malformed_webhook, verify_and_credit,
}

-- The parts of a parsed webhook body that the code reads.
pub record WebhookEvent : Type 0 where
  pub is_payment_captured : Bool
  pub payment_id : Option ℕ
  pub order_id : Option ℕ

-- `{ handled, reason }`
pub data WebhookResult : Type 0 where
  ignored_event no_matching_payment already_processed credited : WebhookResult

abbrev webhook_credit :
    Provider → ℕ → (order_id payment_id : ℕ) → Action Store PaymentError WebhookResult
webhook_credit env now order_id payment_id = do
  result ←
      verify_and_credit env now
        (record {
          provider_order_id = order_id;
          provider_payment_id = payment_id;
          signature = sign_payload env (payment_payload order_id payment_id);
        })
        none
  pure (if result.already_processed then already_processed else credited)

abbrev pub captured :
    Provider → ℕ → (order_id payment_id : ℕ) → Action Store PaymentError WebhookResult
captured env now order_id payment_id db =
    elim (find_one (λ (p : PaymentTransaction). is_ref p.provider_order_id order_id) db.payments) [
      | none ↦ (ok no_matching_payment, db)
      | some row ↦
          if is_paid row.1.status
          then (ok already_processed, db)
          else webhook_credit env now order_id payment_id db
    ]

abbrev pub on_event : Provider → ℕ → WebhookEvent → Action Store PaymentError WebhookResult
on_event env now event db =
    if event.is_payment_captured
    then elim event.payment_id [
      | none ↦ (ok ignored_event, db)
      | some payment_id ↦ elim event.order_id [
        | none ↦ (ok ignored_event, db)
        | some order_id ↦ captured env now order_id payment_id db
      ]
    ]
    else (ok ignored_event, db)

-- `parse` is `JSON.parse`, which may throw.
unfoldable pub handle_webhook :
    Provider
    → (List ℕ → Option WebhookEvent)
    → (now : ℕ) → List ℕ
    → (signature : ℕ) → Action Store PaymentError WebhookResult
handle_webhook env parse now raw_body signature = do
  throw_if (not (verify_webhook_signature env raw_body signature)) invalid_webhook_signature
  event ← require (parse raw_body) malformed_webhook
  on_event env now event
