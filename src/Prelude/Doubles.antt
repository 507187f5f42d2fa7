-- ===== src/Prelude/Doubles.antt =====
-- JavaScript numbers that are not negative, as fractions: the double nearest to a quotient, with ties
-- to the even one. A double below 2^53 has 53 significant bits; the values here lie between 2^-8 and
-- 2^53, and are far from the subnormal ones.
use Prim.Native.Nat.{ℕ, zero, suc, ◌+◌, ◌*◌, ◌/◌, ◌%◌, ◌^◌}
use ev_charger_management_pl.Prelude.Tests.{ltb, leb, ◌==◌, if◌then◌else◌}

-- A fraction, its numerator first.
abbrev pub Fraction : Type 0
Fraction = ℕ × ℕ

-- How often a fraction must be doubled to have its 53 bits before the point; 60 times is enough from
-- 2^-8 on.
unfoldable pub doublings : (fuel num den : ℕ) → ℕ
doublings zero num den = 0
doublings (suc fuel) num den =
    let more = doublings fuel (2 * num) den in if leb (2 ^ 52 * den) num then 0 else suc more

unfoldable pub half_even : (num den : ℕ) → ℕ
half_even num den =
    let q = num / den in
    let r = num % den in if ltb (2 * r) den then q else if 2 * r == den then q + q % 2 else q + 1

-- The double nearest to a positive quotient.
unfoldable pub to_double : (num den : ℕ) → Fraction
to_double num den = let scale = 2 ^ doublings 60 num den in (half_even (num * scale) den, scale)
