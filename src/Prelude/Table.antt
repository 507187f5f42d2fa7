-- ===== src/Prelude/Table.antt =====
-- A MongoDB collection: its documents under their `_id`, in natural order. A query is a test on the
-- document, and an update by `_id` that finds nothing changes nothing.
use Prim.Native.Nat.{ℕ}
use mathlib.Core.Path.{◌≡◌, refl}
use mathlib.Core.Logic.{inl, inr}
use mathlib.Core.Bool.{Bool, true, false, not, ◌&&◌, ◌||◌}
use mathlib.Core.Option
use mathlib.Core.Option.{Option, none, some}
use mathlib.Core.List.{List, [], ◌∷◌}
use native.Mathlib.Omega.{arith}
use ev_charger_management_pl.Prelude.Tests.{
  ◌==◌, if◌then◌else◌, is_some, or_else, Bool-cases, ==_iff,
}

abbrev pub Table : Type 0 → Type 0
Table A = List (ℕ × A)

module _ {A : Type 0} where
  -- `findById`
  unfoldable pub find_by_id : ℕ → Table A → Option A
  find_by_id k [] = none
  find_by_id k ((j, a) ∷ t) = if j == k then some a else find_by_id k t

  -- `findOne`
  unfoldable pub find_one : (A → Bool) → Table A → Option (ℕ × A)
  find_one p [] = none
  find_one p ((k, a) ∷ t) = if p a then some (k, a) else find_one p t

  -- `find`
  unfoldable pub find_all : (A → Bool) → Table A → Table A
  find_all p [] = []
  find_all p ((k, a) ∷ t) = if p a then (k, a) ∷ find_all p t else find_all p t

  -- `save`, `updateOne` and `findOneAndUpdate` on a known `_id`
  unfoldable pub save : ℕ → A → Table A → Table A
  save k a [] = []
  save k a ((j, b) ∷ t) = if j == k then (j, a) ∷ t else (j, b) ∷ save k a t

  -- `create`, with the `_id` that the driver makes up
  unfoldable pub create : ℕ → A → Table A → Table A
  create k a [] = (k, a) ∷ []
  create k a (row ∷ t) = row ∷ create k a t

  -- `updateMany`, with the number of documents that the filter matched
  unfoldable pub update_many : (A → Bool) → (A → A) → Table A → Table A
  update_many p f [] = []
  update_many p f ((k, a) ∷ t) = (k, if p a then f a else a) ∷ update_many p f t

  -- Is there a document other than the one under `k` that the test accepts? A unique index refuses a
  -- write exactly then.
  unfoldable pub any_other : ℕ → (A → Bool) → Table A → Bool
  any_other k p [] = false
  any_other k p ((j, a) ∷ t) = (not (j == k) && p a) || any_other k p t

  -- Every `_id` stands once.
  unfoldable pub IsTable : Table A → Type 0
  IsTable [] = Unit
  IsTable ((k, a) ∷ t) = (find_by_id k t ≡ none) × IsTable t

  pub find_by_id-save :
      (j k : ℕ) (a : A) (t : Table A)
      → find_by_id j (save k a t)
        ≡ (if k == j then (if is_some (find_by_id k t) then some a else none) else find_by_id j t)
  unfolding find_by_id save
  find_by_id-save j k a [] = ground arith
  find_by_id-save j k a ((i, b) ∷ t) = ground (arith, find_by_id-save j k a t)

  pub find_by_id-save_self :
      (k : ℕ) (a : A) {b : A} (t : Table A)
      → find_by_id k t ≡ some b
      → find_by_id k (save k a t) ≡ some a
  find_by_id-save_self k a t h = ground (arith, find_by_id-save k k a t)

  pub find_by_id-create :
      (j k : ℕ) (a : A) (t : Table A)
      → find_by_id j (create k a t) ≡ or_else (find_by_id j t) (if k == j then some a else none)
  unfolding find_by_id create
  find_by_id-create j k a [] = ground arith
  find_by_id-create j k a ((i, b) ∷ t) = ground (arith, find_by_id-create j k a t)

  -- A query over a proper table answers with a document that is stored under its `_id`.
  pub find_one_sound :
      (p : A → Bool) (t : Table A) (k : ℕ) (a : A)
      → IsTable t
      → find_one p t ≡ some (k, a)
      → (find_by_id k t ≡ some a) × (p a ≡ true)
  unfolding find_by_id find_one IsTable
  find_one_sound p [] k a h e = ground arith
  find_one_sound p ((i, b) ∷ t) k a h e = ground (arith, find_one_sound p t k a h.1)

  pub find_one_fits :
      (p : A → Bool) (t : Table A) (k : ℕ) (a : A) → find_one p t ≡ some (k, a) → p a ≡ true
  unfolding find_one
  find_one_fits p [] k a e = ground arith
  find_one_fits p ((i, b) ∷ t) k a e = ground (arith, find_one_fits p t k a)

  -- A query that answers with nothing has no document to answer with.
  pub find_one_complete :
      (p : A → Bool) (t : Table A) (k : ℕ) (a : A)
      → find_one p t ≡ none
      → find_by_id k t ≡ some a
      → p a ≡ false
  unfolding find_by_id find_one
  find_one_complete p [] k a e h = ground arith
  find_one_complete p ((i, b) ∷ t) k a e h = ground (arith, find_one_complete p t k a)

  -- A query that found a document finds what is saved in its place, if the test still accepts it.
  pub find_one-save :
      (p : A → Bool) (k : ℕ) (a b : A) (t : Table A)
      → find_one p t ≡ some (k, a)
      → IsTable t
      → p b ≡ true
      → find_one p (save k b t) ≡ some (k, b)
  unfolding find_one save IsTable
  find_one-save p k a b [] found h fits = ground arith
  find_one-save p k a b ((j, c) ∷ t) found h fits = elim (Bool-cases (p c)) [
    | inl here ↦ ground arith
    | inr further ↦
        let found_below : find_one p t ≡ some (k, a) = ground arith in
        let there = find_one_sound p t k a h.1 found_below in
        let other : (j == k) ≡ false = ground (arith, ==_iff j k, there.0) in
        let below = find_one-save p k a b t found_below h.1 fits in rw (other, further) below
  ]

  pub find_by_id-update_many :
      (p : A → Bool) (f : A → A) (j : ℕ) (t : Table A)
      → find_by_id j (update_many p f t) ≡ Option.map (λ a. if p a then f a else a) (find_by_id j t)
  unfolding find_by_id update_many
  find_by_id-update_many p f j [] = refl
  find_by_id-update_many p f j ((k, a) ∷ t) = ground (arith, find_by_id-update_many p f j t)

  pub save-IsTable : (k : ℕ) (a : A) (t : Table A) → IsTable t → IsTable (save k a t)
  unfolding save IsTable
  save-IsTable k a [] h = tt
  save-IsTable k a ((j, b) ∷ t) h = ground (arith, save-IsTable k a t h.1, find_by_id-save j k a t)

  pub create-IsTable :
      (k : ℕ) (a : A) (t : Table A) → find_by_id k t ≡ none → IsTable t → IsTable (create k a t)
  unfolding create IsTable find_by_id
  create-IsTable k a [] e h = (refl, tt)
  create-IsTable k a ((j, b) ∷ t) e h =
      ground (arith, create-IsTable k a t, find_by_id-create j k a t)

  pub update_many-IsTable :
      (p : A → Bool) (f : A → A) (t : Table A) → IsTable t → IsTable (update_many p f t)
  unfolding update_many IsTable
  update_many-IsTable p f [] h = tt
  update_many-IsTable p f ((k, a) ∷ t) h =
      ground (arith, update_many-IsTable p f t h.1, find_by_id-update_many p f k t)

-- The driver's `new ObjectId()`: an `_id` that no document of the collection has.
pub record ObjectIds : Type 1 where
  pub fresh : (A : Type 0) → Table A → ℕ
  pub unused : (A : Type 0) (t : Table A) → find_by_id (fresh A t) t ≡ none
