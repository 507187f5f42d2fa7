-- ===== src/Prelude/Order.antt =====
-- `sort` on one key, ascending, with nulls first as MongoDB orders them, and `limit`.
use Prim.Native.Nat.{ℕ, zero, suc, ◌≤◌}
use mathlib.Core.Option.{Option, none, some}
use mathlib.Core.List.{[], ◌∷◌}
use native.Mathlib.Omega.{arith}
use ev_charger_management_pl.Prelude.Tests.{leb, if◌then◌else◌, length}
use ev_charger_management_pl.Prelude.Table.{Table}

-- Where null and a moment stand in the order.
abbrev pub null_first : Option ℕ → ℕ
null_first none = 0
null_first (some n) = suc n

module _ {A : Type 0} where
  unfoldable pub insert_by : (A → ℕ) → ℕ → A → Table A → Table A
  insert_by key k a [] = (k, a) ∷ []
  insert_by key k a ((j, b) ∷ t) =
      if leb (key a) (key b) then (k, a) ∷ (j, b) ∷ t else (j, b) ∷ insert_by key k a t

  unfoldable pub sort_by : (A → ℕ) → Table A → Table A
  sort_by key [] = []
  sort_by key ((k, a) ∷ t) = insert_by key k a (sort_by key t)

  unfoldable pub limit : ℕ → Table A → Table A
  limit zero t = []
  limit (suc n) [] = []
  limit (suc n) (row ∷ t) = row ∷ limit n t

  pub length-limit : (n : ℕ) (t : Table A) → length (limit n t) ≤ n
  unfolding limit
  length-limit zero t = omega arith
  length-limit (suc n) [] = omega arith
  length-limit (suc n) (row ∷ t) = omega (arith, length-limit n t)
