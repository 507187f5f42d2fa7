-- ===== src/Tariffs/Active.antt =====
-- What creating and editing tariffs does to the number of active ones
-- (backend/src/services/tariff.service.ts).
use ev_charger_management_pl.Prelude.{
  ℕ, ◌≤◌, ◌≡◌, refl, Option, none, some, Bool, false, inl, inr, arith,
}
use ev_charger_management_pl.Prelude.Result.{ok, Result-cases}
use ev_charger_management_pl.Prelude.Table.{
  Table, ObjectIds, IsTable, find_by_id, save, save-IsTable, create, create-IsTable,
}
use ev_charger_management_pl.Prelude.Counting.{
  count_documents, count_documents-save, count_documents-create,
}
use ev_charger_management_pl.Access.{AuthUser}
use ev_charger_management_pl.Models.Charger.{Tariff}
use ev_charger_management_pl.Tariffs.Service.{
  tariff_owned, active_of, CreateTariffInput, create_tariff, resolve_target_company,
  tariff_in_scope, update_tariff,
}

abbrev pub active_tariffs : (company_id : ℕ) → Table Tariff → ℕ
active_tariffs c t = count_documents (active_of c) t

-- Every company has one active tariff at most.
pub record IsPriced (t : Table Tariff) : Type 0 where
  pub rows : IsTable t
  pub single : (c : ℕ) → active_tariffs c t ≤ 1

-- The books after an operation: still proper, and no company lost its price.
pub record KeepsPrices (t t' : Table Tariff) : Type 0 where
  pub priced : IsPriced t'
  pub kept : (c : ℕ) → active_tariffs c t ≤ active_tariffs c t'

pub same-KeepsPrices : (t : Table Tariff) → IsPriced t → KeepsPrices t t
same-KeepsPrices t h = record { priced = h; kept = λ c. omega arith }

pub tariff_in_scope_found :
    (actor : AuthUser) (k : ℕ) (t : Table Tariff) (x : Tariff)
    → tariff_in_scope actor k t ≡ ok x
    → find_by_id k t ≡ some x
unfolding tariff_in_scope
tariff_in_scope_found actor k t x h = ground arith

-- A write that leaves a tariff's company and status alone.
rewritten-KeepsPrices :
    (k : ℕ) (x y : Tariff) (t : Table Tariff)
    → find_by_id k t ≡ some x
    → y.company_id ≡ x.company_id
    → y.is_active ≡ x.is_active
    → IsPriced t
    → KeepsPrices t (save k y t)
rewritten-KeepsPrices k x y t found company status h =
    let same : (c : ℕ) → active_tariffs c (save k y t) ≡ active_tariffs c t =
      λ c. ground (arith, count_documents-save (active_of c) k y x t found, company, status) in
    record {
      priced = record {
        rows = save-IsTable k y t h.rows;
        single = λ c. omega (arith, same c, h.single c);
      };
      kept = λ c. omega (arith, same c);
    }

pub update-KeepsPrices :
    (actor : AuthUser) (k : ℕ) (price : Option ℕ) (t : Table Tariff)
    → IsPriced t
    → KeepsPrices t (update_tariff actor k price t).1
unfolding update_tariff
update-KeepsPrices actor k price t h = elim (Result-cases (tariff_in_scope actor k t)) [
  | inl (e, out) ↦ rw (out, update_tariff) (same-KeepsPrices t h)
  | inr (x, within) ↦
      rw (within, update_tariff)
        (rewritten-KeepsPrices k x _ t (tariff_in_scope_found actor k t x within) refl refl h)
]

added-KeepsPrices :
    (k : ℕ) (x : Tariff) (t : Table Tariff)
    → find_by_id k t ≡ none
    → x.is_active ≡ false
    → IsPriced t
    → KeepsPrices t (create k x t)
added-KeepsPrices k x t fresh idle h =
    let same : (c : ℕ) → active_tariffs c (create k x t) ≡ active_tariffs c t =
      λ c. ground (arith, count_documents-create (active_of c) k x t, idle) in
    record {
      priced = record {
        rows = create-IsTable k x t fresh h.rows;
        single = λ c. omega (arith, same c, h.single c);
      };
      kept = λ c. omega (arith, same c);
    }

pub create-KeepsPrices :
    (ids : ObjectIds) (company_exists : ℕ → Bool) (actor : AuthUser) (input : CreateTariffInput)
    (t : Table Tariff)
    → IsPriced t
    → KeepsPrices t (create_tariff ids company_exists actor input t).1
unfolding create_tariff
create-KeepsPrices ids company_exists actor input t h =
    elim (Result-cases (resolve_target_company company_exists actor input.company_id)) [
      | inl (e, out) ↦ rw (out, create_tariff) (same-KeepsPrices t h)
      | inr (company_id, fine) ↦
          rw (fine, create_tariff)
            (added-KeepsPrices (ids.fresh Tariff t) _ t (ids.unused Tariff t) refl h)
    ]
