-- ===== src/Prelude/Dict.antt =====
-- A JavaScript `Map` whose keys are numbers: a table that is written under keys that the program
-- chooses.
use Prim.Native.Nat.{ℕ}
use mathlib.Core.Path.{◌≡◌}
use mathlib.Core.Option.{none, some}
use mathlib.Core.List.{List, [], ◌∷◌}
use native.Mathlib.Omega.{arith}
use ev_charger_management_pl.Prelude.Tests.{◌==◌, if◌then◌else◌}
use ev_charger_management_pl.Prelude.Table.{Table, find_by_id}

module _ {A : Type 0} where
  -- `set`
  unfoldable pub put : ℕ → A → Table A → Table A
  put k a [] = (k, a) ∷ []
  put k a ((j, b) ∷ t) = if j == k then (j, a) ∷ t else (j, b) ∷ put k a t

  -- `delete`
  unfoldable pub delete : ℕ → Table A → Table A
  delete k [] = []
  delete k ((j, b) ∷ t) = if j == k then delete k t else (j, b) ∷ delete k t

  pub find_by_id-put :
      (j k : ℕ) (a : A) (t : Table A)
      → find_by_id j (put k a t) ≡ (if k == j then some a else find_by_id j t)
  unfolding find_by_id put
  find_by_id-put j k a [] = ground arith
  find_by_id-put j k a ((i, b) ∷ t) = ground (arith, find_by_id-put j k a t)

  pub find_by_id-delete :
      (j k : ℕ) (t : Table A)
      → find_by_id j (delete k t) ≡ (if k == j then none else find_by_id j t)
  unfolding find_by_id delete
  find_by_id-delete j k [] = ground arith
  find_by_id-delete j k ((i, b) ∷ t) = ground (arith, find_by_id-delete j k t)

  unfoldable pub values : Table A → List A
  values [] = []
  values ((k, a) ∷ t) = a ∷ values t
