-- ===== src/Ocpp/Faults.antt =====
-- What a machine's fault does (`handleChargePointStatus` of backend/src/ocpp/handlers.ts).
use Prim.Native.String.{String}
use text.Mathlib.Text.{◌==◌ as str_eq}
use ev_charger_management_pl.Prelude.{ℕ, Option, ◌==◌}
use mathlib.Core.Option
use ev_charger_management_pl.Prelude.Table.{Table, save}
use ev_charger_management_pl.Models.Charger.{Charger, HardwareStatus}
use ev_charger_management_pl.Store.{Store}
use ev_charger_management_pl.Ocpp.Registry.{ChargerConnection}
use ev_charger_management_pl.Ocpp.Gateway.{Gateway, JsDate}
use ev_charger_management_pl.Ocpp.Status.{reported}

module _ (date : JsDate) (now : ℕ) (connection : ChargerConnection) where
  -- The store with the fault written down, before the sessions are ended.
  abbrev noted : Option ℕ → Charger → Store → Store
  noted error_code previous db = record db {
    chargers =
        save connection.charger_id (reported now HardwareStatus.faulted error_code previous)
          db.chargers;
  }
