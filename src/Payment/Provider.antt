-- ===== src/Payment/Provider.antt =====
-- The payment provider: backend/src/payments/razorpay.ts. The HMAC and the configured secrets are
-- parameters. Orders, payments and signatures are compared only, so they are numbers.
use ev_charger_management_pl.Prelude.{ℕ, Option, none, some, Bool, ◌==◌, get_or, List, [], ◌∷◌}

pub record Provider : Type 0 where
  pub hmac_sha256 : ℕ → List ℕ → ℕ
  pub razorpay_key_id : Option ℕ
  pub razorpay_key_secret : Option ℕ
  pub razorpay_webhook_secret : Option ℕ
  pub stub_secret : ℕ

-- `'razorpay' | 'stub'`
pub data Mode : Type 0 where
  razorpay stub : Mode

unfoldable pub provider_mode : Provider → Mode
provider_mode env = elim env.razorpay_key_id [
  | none ↦ stub
  | some _ ↦ elim env.razorpay_key_secret [ none ↦ stub | some _ ↦ razorpay ]
]

pub record ProviderOrder : Type 0 where
  pub order_id : ℕ
  pub amount_paise : ℕ

unfoldable pub signing_secret : Provider → ℕ
signing_secret env = get_or env.razorpay_key_secret env.stub_secret

-- The payload `${orderId}|${paymentId}`.
abbrev pub payment_payload : ℕ → ℕ → List ℕ
payment_payload order_id payment_id = order_id ∷ b'|' ∷ payment_id ∷ []

unfoldable pub verify_payment_signature : Provider → (order_id payment_id signature : ℕ) → Bool
verify_payment_signature env order_id payment_id signature =
    env.hmac_sha256 (signing_secret env) (payment_payload order_id payment_id) == signature

unfoldable pub verify_webhook_signature : Provider → List ℕ → ℕ → Bool
verify_webhook_signature env raw_body signature =
    let secret = get_or env.razorpay_webhook_secret (signing_secret env) in
    env.hmac_sha256 secret raw_body == signature

unfoldable pub sign_payload : Provider → List ℕ → ℕ
sign_payload env payload = env.hmac_sha256 (signing_secret env) payload
