-- ===== src/Prelude/Counting.antt =====
-- `countDocuments`, and what the writes to a collection do to a count.
use Prim.Native.Nat.{ℕ, ◌+◌, ◌≤◌}
use mathlib.Core.Path.{◌≡◌, refl}
use mathlib.Core.Bool.{Bool, true}
use mathlib.Core.Option.{none, some}
use mathlib.Core.List.{[], ◌∷◌}
use native.Mathlib.Omega.{arith}
use ev_charger_management_pl.Prelude.Tests.{==_iff, if◌then◌else◌}
use ev_charger_management_pl.Prelude.Table.{Table, find_by_id, find_one, save, create, any_other}

module _ {A : Type 0} where
  unfoldable pub count_documents : (A → Bool) → Table A → ℕ
  count_documents p [] = 0
  count_documents p ((k, a) ∷ t) = (if p a then 1 else 0) + count_documents p t

  pub count_documents-save :
      (p : A → Bool) (k : ℕ) (a b : A) (t : Table A)
      → find_by_id k t ≡ some b
      → count_documents p (save k a t) + (if p b then 1 else 0)
        ≡ count_documents p t + (if p a then 1 else 0)
  unfolding count_documents find_by_id save
  count_documents-save p k a b [] h = ground arith
  count_documents-save p k a b ((j, c) ∷ t) h = ground (arith, count_documents-save p k a b t)

  pub count_documents-create :
      (p : A → Bool) (k : ℕ) (a : A) (t : Table A)
      → count_documents p (create k a t) ≡ count_documents p t + (if p a then 1 else 0)
  unfolding count_documents create
  count_documents-create p k a [] = omega arith
  count_documents-create p k a ((j, c) ∷ t) = omega (arith, count_documents-create p k a t)

  pub count_documents-find_one :
      (p : A → Bool) (t : Table A) → find_one p t ≡ none → count_documents p t ≡ 0
  unfolding count_documents find_one
  count_documents-find_one p [] h = refl
  count_documents-find_one p ((j, c) ∷ t) h = ground (arith, count_documents-find_one p t)

  pub count_documents-found :
      (p : A → Bool) (k : ℕ) (a : A) (t : Table A)
      → find_by_id k t ≡ some a
      → p a ≡ true
      → 1 ≤ count_documents p t
  unfolding count_documents find_by_id
  count_documents-found p k a [] h fits = ground arith
  count_documents-found p k a ((j, c) ∷ t) h fits = ground (arith, count_documents-found p k a t)

  count_documents-any_other :
      (p : A → Bool) (k : ℕ) (t : Table A) → any_other k p t ≡ true → 1 ≤ count_documents p t
  unfolding count_documents any_other
  count_documents-any_other p k [] h = ground arith
  count_documents-any_other p k ((j, c) ∷ t) h = ground (arith, count_documents-any_other p k t)

  -- One document under the id, and another one.
  pub count_documents-two :
      (p : A → Bool) (k : ℕ) (a : A) (t : Table A)
      → find_by_id k t ≡ some a
      → p a ≡ true
      → any_other k p t ≡ true
      → 2 ≤ count_documents p t
  unfolding count_documents any_other find_by_id
  count_documents-two p k a [] h fits other = ground arith
  count_documents-two p k a ((j, c) ∷ t) h fits other = ground (
    arith,
    count_documents-two p k a t,
    count_documents-any_other p k t,
    count_documents-found p k a t,
    ==_iff j k,
  )
