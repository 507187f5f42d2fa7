-- ===== src/Money/Rounding.antt =====
-- The amount of a session is the exact price, rounded once: how far it can be from it, and what
-- billing in two parts changes (backend/src/utils/money.ts).
use ev_charger_management_pl.Prelude.{
  ℕ, ◌+◌, ◌-◌, ◌*◌, ◌/◌, ◌%◌, ◌≤◌, Bool, ◌&&◌, ◌==◌, if◌then◌else◌, arith,
}
use ev_charger_management_pl.Prelude.Int.{pos}
use ev_charger_management_pl.Money.{finite, calculate_amount_paise, falls_short, rounded_amount}

-- Whichever way the doubles fall at a half, the amount is within a half of the price.
within_half :
    (e r : ℕ) (short : Bool)
    → let num = 2 * (e * r) + 100_000 in
      let a = if num % 200_000 == 0 && short then num / 200_000 - 1 else num / 200_000 in
      (2 * (e * r) ≤ 2 * a * 100_000 + 100_000) × (2 * a * 100_000 ≤ 2 * (e * r) + 100_000)
within_half e r short = (ground arith, ground arith)

-- For an energy and a rate that are not negative, the amount differs from the exact price, energy
-- times rate over 1000, by at most half a paisa.
pub amount_nearest :
    (e r : ℕ)
    → let a = calculate_amount_paise (finite (pos e)) (finite (pos r)) in
      (2 * (e * r) ≤ 2 * a * 100_000 + 100_000) × (2 * a * 100_000 ≤ 2 * (e * r) + 100_000)
unfolding calculate_amount_paise rounded_amount
amount_nearest e r = ground (arith, within_half e r (falls_short e r))

-- Billing one charge in two parts at one rate changes the bill by at most one paisa.
pub amount_split :
    (e e' r : ℕ)
    → let whole = calculate_amount_paise (finite (pos (e + e'))) (finite (pos r)) in
      let parts =
        calculate_amount_paise (finite (pos e)) (finite (pos r))
        + calculate_amount_paise (finite (pos e')) (finite (pos r)) in
      (whole ≤ parts + 1) × (parts ≤ whole + 1)
amount_split e e' r =
    omega (arith, amount_nearest (e + e') r, amount_nearest e r, amount_nearest e' r)
