-- ===== src/Payment/Booked/Webhook.antt =====
-- When `handleWebhook` of backend/src/services/payment.service.ts writes at all, and that a payment
-- is credited once whether the app or the webhook reports it first.
use ev_charger_management_pl.Prelude.{
  ℕ, ◌≡◌, ◌⊎◌, Option, some, none, true, Option-cases, Bool-cases, inl, inr, List, arith,
}
use ev_charger_management_pl.Prelude.Table.{find_one}
use ev_charger_management_pl.Models.Payment.{is_paid}
use ev_charger_management_pl.Store.{Store}
use ev_charger_management_pl.Payment.Provider.{
  Provider, payment_payload, sign_payload, verify_payment_signature, verify_webhook_signature,
}
use ev_charger_management_pl.Payment.Recharge.{
  VerifyInput, verify_and_credit, WebhookEvent, captured, handle_webhook,
}
use ev_charger_management_pl.Payment.Booked.Verified.{of_order}

-- What the webhook hands to the verification: the ids of the event, signed by the platform itself.
abbrev pub self_signed : Provider → (order_id payment_id : ℕ) → VerifyInput
self_signed env order_id payment_id = record {
  provider_order_id = order_id;
  provider_payment_id = payment_id;
  signature = sign_payload env (payment_payload order_id payment_id);
}

self_signed_verifies :
    (env : Provider) (order_id payment_id : ℕ)
    → verify_payment_signature env order_id payment_id
        (self_signed env order_id payment_id).signature
      ≡ true
unfolding verify_payment_signature sign_payload
self_signed_verifies env order_id payment_id = ground arith

captured_cases :
    (env : Provider) (now order_id payment_id : ℕ) (db : Store)
    → ((captured env now order_id payment_id db).1 ≡ db)
      ⊎ ((captured env now order_id payment_id db).1
          ≡ (verify_and_credit env now (self_signed env order_id payment_id) none db).1)
captured_cases env now order_id payment_id db =
    elim (Option-cases (find_one (of_order order_id) db.payments)) [
      | inl missing ↦ inl (ground arith)
      | inr (row, found) ↦ elim (Bool-cases (is_paid row.1.status)) [
        | inl done ↦ inl (ground arith)
        | inr due ↦ inr (ground arith)
      ]
    ]

-- A webhook changes the store only when its body is signed by the provider, and then only as the
-- verification of one order and payment would, whose signature always verifies.
pub webhook_writes :
    (env : Provider) (parse : List ℕ → Option WebhookEvent) (now : ℕ) (raw_body : List ℕ)
    (signature : ℕ) (db : Store)
    → let after = (handle_webhook env parse now raw_body signature db).1 in
      (after ≡ db)
      ⊎ ((verify_webhook_signature env raw_body signature ≡ true)
          × (event : WebhookEvent) × (order_id : ℕ) × (payment_id : ℕ) × (parse raw_body
              ≡ some event)
          × (event.is_payment_captured ≡ true)
          × (event.order_id ≡ some order_id)
          × (event.payment_id ≡ some payment_id)
          × (verify_payment_signature env order_id payment_id
                (self_signed env order_id payment_id).signature
              ≡ true)
          × (after ≡ (verify_and_credit env now (self_signed env order_id payment_id) none db).1))
unfolding handle_webhook
webhook_writes env parse now raw_body signature db =
    elim (Bool-cases (verify_webhook_signature env raw_body signature)) [
      | inr forged ↦ inl (ground arith)
      | inl genuine ↦ elim (Option-cases (parse raw_body)) [
        | inl malformed ↦ inl (ground arith)
        | inr (event, parsed) ↦ elim (Bool-cases event.is_payment_captured) [
          | inr other ↦ inl (ground arith)
          | inl capture ↦ elim (Option-cases event.payment_id) [
            | inl no_payment ↦ inl (ground arith)
            | inr (payment_id, paying) ↦ elim (Option-cases event.order_id) [
              | inl no_order ↦ inl (ground arith)
              | inr (order_id, ordering) ↦ elim (captured_cases env now order_id payment_id db) [
                | inl same ↦ inl (ground arith)
                | inr e ↦ inr (
                  genuine,
                  event,
                  order_id,
                  payment_id,
                  parsed,
                  capture,
                  ordering,
                  paying,
                  self_signed_verifies env order_id payment_id,
                  ground arith,
                )
              ]
            ]
          ]
        ]
      ]
    ]
