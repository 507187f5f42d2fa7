-- ===== src/Payment/Backoff.antt =====
-- The delay before a settlement is tried again: `retryDelayMs` of
-- backend/src/services/payment.service.ts, with its constants from backend/src/constants/wallet.ts.
use ev_charger_management_pl.Prelude.{
  ℕ, zero, suc, ◌+◌, ◌-◌, ◌*◌, ◌^◌, ◌≤◌, ◌≡◌, inl, inr, ltb, min, if◌then◌else◌, Bool-cases, arith,
}
use native.Mathlib.Nat.{pow-suc, add-zero, add-suc}

abbrev pub settlement_retry_base_ms : ℕ
settlement_retry_base_ms = 30_000

abbrev pub settlement_retry_max_ms : ℕ
settlement_retry_max_ms = 6 * 60 * 60 * 1_000

-- `Math.max(0, attempts - 1)` is the subtraction that stops at zero.
unfoldable pub retry_delay_ms : ℕ → ℕ
retry_delay_ms attempts =
    let exponent = attempts - 1 in
    if ltb 40 exponent
    then settlement_retry_max_ms
    else min (settlement_retry_base_ms * 2 ^ exponent) settlement_retry_max_ms

pow_mono : (k n : ℕ) → 2 ^ k ≤ 2 ^ (k + n)
pow_mono k zero = rw add-zero (omega arith)
pow_mono k (suc n) = rw (add-suc, pow-suc) (omega (arith, pow_mono k n))

pow_le : (a b : ℕ) → a ≤ b → 2 ^ a ≤ 2 ^ b
pow_le a b h = let e : b ≡ a + (b - a) = omega arith in rw e (pow_mono a (b - a))

pow_past_guard : (n : ℕ) → 41 ≤ n → settlement_retry_max_ms ≤ settlement_retry_base_ms * 2 ^ n
pow_past_guard n h = omega (arith, pow_le 41 n h)

-- The guard on the exponent changes nothing: for every number of attempts the delay is the base
-- doubled for each attempt after the first, and six hours at most.
pub retry_delay_formula :
    (attempts : ℕ)
    → retry_delay_ms attempts
      ≡ min (settlement_retry_base_ms * 2 ^ (attempts - 1)) settlement_retry_max_ms
unfolding retry_delay_ms
retry_delay_formula attempts = elim (Bool-cases (ltb 40 (attempts - 1))) [
  | inl past ↦ rw past (omega (arith, pow_past_guard (attempts - 1) (ground arith)))
  | inr below ↦ rw below
]

-- A later attempt never waits less, and every delay lies between half a minute and six hours.
pub retry_delay_bounds :
    (attempts more : ℕ)
    → (settlement_retry_base_ms ≤ retry_delay_ms attempts)
      × (retry_delay_ms attempts ≤ settlement_retry_max_ms)
      × (retry_delay_ms attempts ≤ retry_delay_ms (attempts + more))
retry_delay_bounds attempts more =
    rw (retry_delay_formula, retry_delay_formula)
      (omega (arith, pow_le 0 (attempts - 1), pow_le (attempts - 1) (attempts + more - 1)))
