-- ===== src/Tests/Plugs.antt =====
-- A charger is set up and gets a plug.
use ev_charger_management_pl.Prelude.{[]}
use ev_charger_management_pl.Prelude.Table.{find_by_id}
use ev_charger_management_pl.Models.Charger.{ac, type2}
use ev_charger_management_pl.Store.{Store}
use ev_charger_management_pl.Fleet.Chargers.{CreateChargerInput, create_charger}
use ev_charger_management_pl.Fleet.Connectors.{CreateConnectorInput, create_connector}
use ev_charger_management_pl.Fleet.Fitting.{IsFitted}
use ev_charger_management_pl.Fleet.Steps.{
  charger_created, connector_created, none_yet, then_one, FleetSteps-IsFitted,
}
use ev_charger_management_pl.Tests.Sample.{counted_ids, admin, credited}

abbrev no_chargers : Store
no_chargers = record credited { connectors = []; chargers = [] }

no_chargers-IsFitted : IsFitted no_chargers
unfolding find_by_id
no_chargers-IsFitted = record { fits = λ k c e. absurd (cc (e)) }

abbrev new_box : CreateChargerInput
new_box = record {
  station_id = 4;
  company_id = 2;
  charger_code = 7;
  ocpp_id = 11;
  power_kw = 22;
  charger_type = ac;
}

abbrev new_plug : CreateConnectorInput
new_plug = record { connector_number = 1; connector_type = type2 }

abbrev with_box : Store
with_box = (create_charger counted_ids admin new_box no_chargers).1

abbrev with_plug : Store
with_plug = (create_connector counted_ids admin 0 new_plug with_box).1

FleetSteps-IsFitted_example : IsFitted with_plug
FleetSteps-IsFitted_example =
    FleetSteps-IsFitted counted_ids no_chargers with_plug no_chargers-IsFitted (
      then_one with_box with_plug
        (then_one no_chargers with_box none_yet (charger_created admin new_box no_chargers))
        (connector_created admin 0 new_plug with_box))
