-- ===== src/Money.antt =====
-- Money arithmetic in integer paise: backend/src/utils/money.ts.
--
-- Energy is in hundredths of a watt-hour: `consumedWh` rounds every energy to two decimals, so
-- those are whole numbers here. A JavaScript number that is not finite has a constructor of its own.
pub mod Rounding
use ev_charger_management_pl.Prelude.{
  ℕ, ◌+◌, ◌-◌, ◌*◌, ◌/◌, ◌%◌, Bool, ◌&&◌, ◌||◌, ◌==◌, ltb, if◌then◌else◌,
}
use ev_charger_management_pl.Prelude.Doubles.{to_double}
use ev_charger_management_pl.Prelude.Int.{ℤ, pos, leb_ℤ, pos_part}

-- A `number`: a whole multiple of the unit at hand, or NaN or an infinity.
pub data Number : Type 0 where
  finite : ℤ → Number
  not_finite : Number

-- `WH_PER_KWH`, and the hundredths of a watt-hour in a watt-hour.
abbrev pub wh_per_kwh : ℕ
wh_per_kwh = 1000

abbrev pub hundredths_per_wh : ℕ
hundredths_per_wh = 100

-- Does `(energyWh * price) / 1000` in doubles fall short of the exact quotient? The energy is the double
-- nearest to its hundredths, and the product and the quotient are each rounded to a double.
unfoldable pub falls_short : (energy_wh price_per_kwh_paise : ℕ) → Bool
falls_short energy_wh price_per_kwh_paise =
    let (e, e_den) = to_double energy_wh hundredths_per_wh in
    let (p, p_den) = to_double (e * price_per_kwh_paise) e_den in
    let (q, q_den) = to_double p (p_den * wh_per_kwh) in
    ltb (q * (hundredths_per_wh * wh_per_kwh)) (energy_wh * price_per_kwh_paise * q_den)

-- `Math.round` of that quotient. The exact one is a multiple of a hundred-thousandth, so the doubles,
-- whose error is below that up to 10^10 paise, decide only where it lies half-way between two paise.
unfoldable pub rounded_amount : (energy_wh price_per_kwh_paise : ℕ) → ℕ
rounded_amount energy_wh price_per_kwh_paise =
    let num = 2 * (energy_wh * price_per_kwh_paise) + 100_000 in
    let up = num / 200_000 in
    if num % 200_000 == 0 && falls_short energy_wh price_per_kwh_paise then up - 1 else up

unfoldable pub calculate_amount_paise : Number → Number → ℕ
calculate_amount_paise not_finite _ = 0
calculate_amount_paise (finite _) not_finite = 0
calculate_amount_paise (finite energy_wh) (finite price_per_kwh_paise) =
    if leb_ℤ energy_wh (pos 0) || leb_ℤ price_per_kwh_paise (pos 0)
    then 0
    else rounded_amount (pos_part energy_wh) (pos_part price_per_kwh_paise)
