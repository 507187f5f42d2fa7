-- ===== src/Prelude/Aggregate.antt =====
-- Sums over the documents that a query finds, as an aggregation pipeline computes them.
use Prim.Native.Nat.{ℕ, ◌+◌, ◌≤◌}
use mathlib.Core.Path.{◌≡◌}
use mathlib.Core.Bool.{Bool, true, false}
use mathlib.Core.Option.{some}
use mathlib.Core.List.{[], ◌∷◌}
use native.Mathlib.Omega.{arith}
use ev_charger_management_pl.Prelude.Table.{Table, find_by_id, find_all, save}

module _ {A : Type 0} where
  -- `{ $sum: m }`
  unfoldable pub sum_rows : (A → ℕ) → Table A → ℕ
  sum_rows m [] = 0
  sum_rows m ((k, a) ∷ t) = m a + sum_rows m t

  -- A document that leaves the query takes its share of the sum along.
  pub sum_rows-save :
      (p : A → Bool) (m : A → ℕ) (k : ℕ) (a b : A) (t : Table A)
      → find_by_id k t ≡ some a
      → p a ≡ true
      → p b ≡ false
      → sum_rows m (find_all p (save k b t)) + m a ≡ sum_rows m (find_all p t)
  unfolding sum_rows find_all find_by_id save
  sum_rows-save p m k a b [] h pa pb = absurd (ground arith)
  sum_rows-save p m k a b ((j, r) ∷ t) h pa pb = ground (arith, sum_rows-save p m k a b t)

  -- A narrower query sums to no more.
  pub sum_rows_mono :
      (p q : A → Bool) (m : A → ℕ) (t : Table A)
      → ((a : A) → p a ≡ true → q a ≡ true)
      → sum_rows m (find_all p t) ≤ sum_rows m (find_all q t)
  unfolding sum_rows find_all
  sum_rows_mono p q m [] h = omega arith
  sum_rows_mono p q m ((j, r) ∷ t) h = ground (arith, sum_rows_mono p q m t h, h r)
