-- ===== src/Tests/Prices.antt =====
-- Runs of the tariffs on a company with two of them.
use ev_charger_management_pl.Prelude.{ℕ, ◌≡◌, refl, Bool, true, false, [], ◌∷◌, arith}
use ev_charger_management_pl.Prelude.Result.{is_ok}
use ev_charger_management_pl.Prelude.Table.{Table, IsTable, find_by_id}
use ev_charger_management_pl.Prelude.Counting.{count_documents}
use ev_charger_management_pl.Models.Charger.{Tariff}
use ev_charger_management_pl.Tariffs.Service.{active, inactive, set_tariff_status}
use ev_charger_management_pl.Tariffs.Active.{IsPriced, KeepsPrices}
use ev_charger_management_pl.Tariffs.Swap.{deactivation_refused}
use ev_charger_management_pl.Tariffs.Steps.{none_yet, then_one, status_set, TariffSteps-KeepsPrices}
use ev_charger_management_pl.Tests.Sample.{counted_ids, admin}

abbrev tariff_at : (price : ℕ) → (is_active : Bool) → Tariff
tariff_at price is_active = record {
  company_id = 2;
  created_by = 1;
  price_per_kwh_paise = price;
  is_active = is_active;
}

abbrev prices : Table Tariff
prices = (1, tariff_at 150 true) ∷ (2, tariff_at 180 false) ∷ []

prices-IsPriced : IsPriced prices
unfolding IsTable find_by_id count_documents
prices-IsPriced = record { rows = (refl, (refl, tt)); single = λ c. ground arith }

abbrev swapped : Table Tariff
swapped = (set_tariff_status admin 2 active prices).1

TariffSteps-KeepsPrices_example : KeepsPrices prices swapped
TariffSteps-KeepsPrices_example =
    TariffSteps-KeepsPrices counted_ids (λ company. true) prices swapped prices-IsPriced
      (then_one prices swapped none_yet (status_set admin 2 active prices))

deactivation_refused_example :
    (is_ok (set_tariff_status admin 1 inactive prices).0 ≡ false)
    × ((set_tariff_status admin 1 inactive prices).1 ≡ prices)
unfolding find_by_id
deactivation_refused_example =
    deactivation_refused admin 1 (tariff_at 150 true) prices prices-IsPriced refl refl
