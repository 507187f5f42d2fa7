-- ===== src/Tariffs/Steps.antt =====
-- Every sequence of operations on tariffs, as a step relation (backend/src/services/tariff.service.ts).
use ev_charger_management_pl.Prelude.{ℕ, Option, Bool, arith}
use ev_charger_management_pl.Prelude.Table.{Table, ObjectIds}
use ev_charger_management_pl.Access.{AuthUser}
use ev_charger_management_pl.Models.Charger.{Tariff}
use ev_charger_management_pl.Tariffs.Service.{
  CreateTariffInput, TariffStatus, create_tariff, update_tariff, set_tariff_status,
}
use ev_charger_management_pl.Tariffs.Active.{
  IsPriced, KeepsPrices, update-KeepsPrices, create-KeepsPrices,
}
use ev_charger_management_pl.Tariffs.Swap.{set-KeepsPrices}

pub data TariffStep (ids : ObjectIds) (company_exists : ℕ → Bool)
    : Table Tariff → Table Tariff → Type 1 where
  created :
      (actor : AuthUser) (input : CreateTariffInput) (t : Table Tariff)
      → TariffStep ids company_exists t (create_tariff ids company_exists actor input t).1
  repriced :
      (actor : AuthUser) (k : ℕ) (price : Option ℕ) (t : Table Tariff)
      → TariffStep ids company_exists t (update_tariff actor k price t).1
  status_set :
      (actor : AuthUser) (k : ℕ) (status : TariffStatus) (t : Table Tariff)
      → TariffStep ids company_exists t (set_tariff_status actor k status t).1

pub data TariffSteps (ids : ObjectIds) (company_exists : ℕ → Bool) (start : Table Tariff)
    : Table Tariff → Type 1 where
  none_yet : TariffSteps ids company_exists start start
  then_one :
      (t t' : Table Tariff)
      → TariffSteps ids company_exists start t
      → TariffStep ids company_exists t t'
      → TariffSteps ids company_exists start t'

TariffStep-KeepsPrices :
    (ids : ObjectIds) (company_exists : ℕ → Bool) (t t' : Table Tariff)
    → IsPriced t
    → TariffStep ids company_exists t t'
    → KeepsPrices t t'
TariffStep-KeepsPrices ids company_exists _ _ h (created actor input t) =
    create-KeepsPrices ids company_exists actor input t h
TariffStep-KeepsPrices ids company_exists _ _ h (repriced actor k price t) =
    update-KeepsPrices actor k price t h
TariffStep-KeepsPrices ids company_exists _ _ h (status_set actor k status t) =
    set-KeepsPrices actor k status t h

-- Whatever sequence of creations, edits and changes of status, by whomever, leads from tariffs of which
-- no company has two active ones, no company has two in the end, and none has fewer than it had.
pub TariffSteps-KeepsPrices :
    (ids : ObjectIds) (company_exists : ℕ → Bool) (start t : Table Tariff)
    → IsPriced start
    → TariffSteps ids company_exists start t
    → KeepsPrices start t
TariffSteps-KeepsPrices ids company_exists start _ h none_yet = record {
  priced = h;
  kept = λ c. omega arith;
}
TariffSteps-KeepsPrices ids company_exists start _ h (then_one t t' before step) =
    let so_far = TariffSteps-KeepsPrices ids company_exists start t h before in
    let last = TariffStep-KeepsPrices ids company_exists t t' so_far.priced step in
    record { priced = last.priced; kept = λ c. omega (arith, so_far.kept c, last.kept c) }
