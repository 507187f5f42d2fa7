-- ===== src/Prelude/Each.antt =====
-- A loop that saves, one by one, the documents that a query found: what it leaves under each `_id`.
use Prim.Native.Nat.{ℕ}
use mathlib.Core.Path.{◌≡◌, refl, ap, ◌∙◌}
use mathlib.Core.Bool.{Bool}
use mathlib.Core.Option
use mathlib.Core.Option.{Option, none, some}
use mathlib.Core.List.{[], ◌∷◌}
use native.Mathlib.Omega.{arith}
use ev_charger_management_pl.Prelude.Tests.{==_iff, if◌then◌else◌, is_some}
use ev_charger_management_pl.Prelude.Table.{
  Table, find_by_id, find_by_id-save, find_all, save, save-IsTable, IsTable,
}

module _ {A : Type 0} where
  unfoldable pub save_each : (ℕ → A → A) → Table A → Table A → Table A
  save_each f [] t = t
  save_each f ((k, a) ∷ rows) t = save_each f rows (save k (f k a) t)

  -- What is stored, where the query accepts it.
  abbrev accepted : (A → Bool) → Option A → Option A
  accepted p none = none
  accepted p (some a) = if p a then some a else none

  -- What a row leaves of a stored document.
  abbrev overwritten : (ℕ → A → A) → ℕ → (row stored : Option A) → Option A
  overwritten f j none stored = stored
  overwritten f j (some a) stored = if is_some stored then some (f j a) else none

  overwritten-accepted :
      (f : ℕ → A → A) (p : A → Bool) (j : ℕ) (o : Option A)
      → overwritten f j (accepted p o) o ≡ Option.map (λ a. if p a then f j a else a) o
  overwritten-accepted f p j none = refl
  overwritten-accepted f p j (some a) = ground arith

  find_by_id-find_all :
      (p : A → Bool) (j : ℕ) (t : Table A)
      → IsTable t
      → find_by_id j (find_all p t) ≡ accepted p (find_by_id j t)
  unfolding find_by_id find_all IsTable
  find_by_id-find_all p j [] h = refl
  find_by_id-find_all p j ((k, a) ∷ t) h = ground (arith, find_by_id-find_all p j t h.1, ==_iff k j)

  find_all-IsTable : (p : A → Bool) (t : Table A) → IsTable t → IsTable (find_all p t)
  unfolding find_all IsTable
  find_all-IsTable p [] h = tt
  find_all-IsTable p ((k, a) ∷ t) h =
      ground (arith, find_all-IsTable p t h.1, find_by_id-find_all p k t h.1)

  find_by_id-save_each :
      (f : ℕ → A → A) (j : ℕ) (rows t : Table A)
      → IsTable rows
      → find_by_id j (save_each f rows t) ≡ overwritten f j (find_by_id j rows) (find_by_id j t)
  unfolding find_by_id save_each IsTable
  find_by_id-save_each f j [] t h = refl
  find_by_id-save_each f j ((k, a) ∷ rows) t h = ground (
    arith,
    find_by_id-save_each f j rows (save k (f k a) t) h.1,
    find_by_id-save j k (f k a) t,
    ==_iff k j,
  )

  -- To save what is stored changes nothing.
  pub save_same : (k : ℕ) (a : A) (t : Table A) → find_by_id k t ≡ some a → save k a t ≡ t
  unfolding find_by_id save
  save_same k a [] h = refl
  save_same k a ((j, b) ∷ t) h = ground (arith, save_same k a t)

  -- The loop over what a query found changes the documents that the query accepts, each as the loop's
  -- body says, and no others.
  pub save_each-find_all :
      (f : ℕ → A → A) (p : A → Bool) (j : ℕ) (t : Table A)
      → IsTable t
      → find_by_id j (save_each f (find_all p t) t)
        ≡ Option.map (λ a. if p a then f j a else a) (find_by_id j t)
  save_each-find_all f p j t h =
      find_by_id-save_each f j (find_all p t) t (find_all-IsTable p t h)
      ∙ ap (λ o. overwritten f j o (find_by_id j t)) (find_by_id-find_all p j t h)
      ∙ overwritten-accepted f p j (find_by_id j t)

  pub save_each-IsTable :
      (f : ℕ → A → A) (rows t : Table A) → IsTable t → IsTable (save_each f rows t)
  unfolding save_each
  save_each-IsTable f [] t h = h
  save_each-IsTable f ((k, a) ∷ rows) t h =
      save_each-IsTable f rows (save k (f k a) t) (save-IsTable k (f k a) t h)
