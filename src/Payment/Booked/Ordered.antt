-- ===== src/Payment/Booked/Ordered.antt =====
-- What `createRechargeOrder` of backend/src/services/payment.service.ts writes: it moves nothing,
-- whether the order is made or not.
use ev_charger_management_pl.Prelude.{
  ℕ, ◌≡◌, ◌⊎◌, refl, sym, ◌∙◌, none, some, not, ◌||◌, ltb, is_ref, inl, inr, Bool-cases,
  Option-cases, Option, arith,
}
use ev_charger_management_pl.Prelude.Table.{ObjectIds, create, any_other}
use ev_charger_management_pl.Models.Wallet.{is_active}
use ev_charger_management_pl.Models.Payment.{
  wallet_recharge, razorpay, provider_unreachable, pending, failed, PaymentTransaction,
}
use ev_charger_management_pl.Store.{Store}
use ev_charger_management_pl.Wallet.{get_or_create_wallet}
use ev_charger_management_pl.Payment.Provider.{ProviderOrder}
use ev_charger_management_pl.Payment.Recharge.{
  put_payment, min_recharge_paise, max_recharge_paise, create_recharge_order,
}
use ev_charger_management_pl.Payment.Booked.Invariant.{IsBooked}
use ev_charger_management_pl.Payment.Booked.Moves.{create-IsBooked, put-IsBooked}
use ev_charger_management_pl.Payment.Booked.Opened.{
  get_or_create_wallet-IsBooked, pending_due, failed_due, created_found,
}

-- The record that a recharge opens.
abbrev pub order_of : (user_id amount_paise wallet_id : ℕ) → PaymentTransaction
order_of user_id amount_paise wallet_id = record {
  user_id = user_id;
  wallet_id = wallet_id;
  purpose = wallet_recharge;
  provider = razorpay;
  charging_session_id = none;
  company_id = none;
  amount_paise = amount_paise;
  status = pending;
  provider_order_id = none;
  provider_payment_id = none;
  attempts = 0;
  next_attempt_at = none;
  failure_reason = none;
  paid_at = none;
}

-- The store of a recharge order: a wallet may have been opened, and then perhaps a record that is
-- pending or has failed.
pub create_recharge_order_cases :
    (ids : ObjectIds) (user_id amount : ℕ) (answer : Option ProviderOrder) (db : Store)
    → let r = create_recharge_order ids user_id amount answer db in
      let opened = get_or_create_wallet (ids.fresh _ db.wallets) user_id db in
      let k = ids.fresh _ opened.1.payments in
      let p = order_of user_id amount opened.0.0 in
      let db₂ = record opened.1 { payments = create k p opened.1.payments } in
      (r.1 ≡ db)
      ⊎ (r.1 ≡ opened.1)
      ⊎ (r.1 ≡ db₂)
      ⊎ (r.1
          ≡ put_payment k
              (record p { status = failed; failure_reason = some provider_unreachable })
              db₂)
      ⊎ ((order : ProviderOrder) × (r.1
            ≡ put_payment k (record p { provider_order_id = some order.order_id }) db₂))
unfolding create_recharge_order
create_recharge_order_cases ids user_id amount answer db =
    let opened = get_or_create_wallet (ids.fresh _ db.wallets) user_id db in
    let k = ids.fresh _ opened.1.payments in
    let p = order_of user_id amount opened.0.0 in
    elim (Bool-cases (ltb amount min_recharge_paise || ltb max_recharge_paise amount)) [
      | inl out ↦ inl (rw (out, create_recharge_order) refl)
      | inr within ↦ elim (Bool-cases (not (is_active opened.0.1.status))) [
        | inl blocked ↦ inr (inl (rw (within, blocked, create_recharge_order) refl))
        | inr usable ↦ elim (Option-cases answer) [
          | inl unreachable ↦ inr (inr (inr (inl (ground arith))))
          | inr (order, answered) ↦
              elim (Bool-cases (
                any_other k (λ (q : PaymentTransaction). is_ref q.provider_order_id order.order_id)
                  (create k p opened.1.payments))) [
                    | inl taken ↦ inr (inr (inl (ground arith)))
                    | inr free ↦ inr (inr (inr (inr (order, ground arith))))
                  ]
        ]
      ]
    ]

-- Opening a recharge keeps the books on every branch, errors included.
pub create_recharge_order-IsBooked :
    (ids : ObjectIds) (user_id amount : ℕ) (answer : Option ProviderOrder) (db : Store)
    → IsBooked db
    → IsBooked (create_recharge_order ids user_id amount answer db).1
create_recharge_order-IsBooked ids user_id amount answer db h =
    let opened = get_or_create_wallet (ids.fresh _ db.wallets) user_id db in
    let k = ids.fresh _ opened.1.payments in
    let p = order_of user_id amount opened.0.0 in
    let new = ids.unused _ opened.1.payments in
    let h₁ = get_or_create_wallet-IsBooked ids user_id db h in
    let h₂ = create-IsBooked k p opened.1 h₁ new (λ t. pending_due p t refl) in
    let stored = created_found k p opened.1.payments new in
    elim (create_recharge_order_cases ids user_id amount answer db) [
      | inl e ↦ rw e h
      | inr (inl e) ↦ rw e h₁
      | inr (inr (inl e)) ↦ rw e h₂
      | inr (inr (inr (inl e))) ↦
          let p' = record p { status = failed; failure_reason = some provider_unreachable } in
          rw e (
            put-IsBooked k p p' _ h₂ stored
              (λ t. failed_due p' t refl ∙ sym (pending_due p t refl)))
      | inr (inr (inr (inr (order, e)))) ↦
          let p' = record p { provider_order_id = some order.order_id } in
          rw e (
            put-IsBooked k p p' _ h₂ stored
              (λ t. pending_due p' t refl ∙ sym (pending_due p t refl)))
    ]
