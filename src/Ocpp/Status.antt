-- ===== src/Ocpp/Status.antt =====
-- What a charger says of itself: `handleBootNotification`, `handleHeartbeat`,
-- `handleStatusNotification` and `handleChargePointStatus` of backend/src/ocpp/handlers.ts.
use Prim.Native.String.{String}
use text.Mathlib.Text.{◌==◌ as str_eq}
use ev_charger_management_pl.Prelude.{
  ℕ, Option, none, some, Bool, true, false, not, ◌&&◌, ◌==◌, if◌then◌else◌,
}
use ev_charger_management_pl.Prelude.Result.{ok, err, Action}
use ev_charger_management_pl.Prelude.Table.{find_by_id, find_one, save}
use ev_charger_management_pl.Models.Charger.{
  Charger, HardwareStatus, operative, Connector, ConnectorStatus, occupied, preparing, charging,
  finishing,
}
use ev_charger_management_pl.Models.Session.{
  hardware_fault, connector_reported_fault, charger_reported_fault,
}
use ev_charger_management_pl.Store.{Store}
use ev_charger_management_pl.Session.Failing.{
  fail_open_sessions_for_connector, fail_open_sessions_for_charger,
}
use ev_charger_management_pl.Ocpp.Json.{
  string, number, Number, natural, decimal, Fields, no_fields, field,
}
use ev_charger_management_pl.Ocpp.Messages.{property_constraint_violation}
use ev_charger_management_pl.Ocpp.Registry.{ChargerConnection, touch_heartbeat}
use ev_charger_management_pl.Ocpp.Gateway.{
  Gateway, JsDate, HandlerError, refused, concat, require_string, require_number, string_at,
  stored_text,
}

abbrev pub heartbeat_interval_seconds : ℕ
heartbeat_interval_seconds = 30

-- `STATUS_MAP`, for statuses that are not named like a function of `Object.prototype`, which the
-- lookup in a plain object finds too.
unfoldable pub status_map : String → Option ConnectorStatus
status_map text =
    if str_eq text "Available"
    then some ConnectorStatus.available
    else if str_eq text "Preparing"
    then some preparing
    else if str_eq text "Charging"
    then some charging
    else if str_eq text "Finishing"
    then some finishing
    else if str_eq text "Faulted"
    then some ConnectorStatus.faulted
    else if str_eq text "Unavailable"
    then some ConnectorStatus.unavailable
    else if str_eq text "SuspendedEV"
    then some occupied
    else if str_eq text "SuspendedEVSE"
    then some occupied
    else if str_eq text "Reserved"
    then some occupied
    else none

-- `CHARGE_POINT_STATUS_MAP`, for the same statuses.
unfoldable pub charge_point_status_map : String → Option HardwareStatus
charge_point_status_map text =
    if str_eq text "Available"
    then some operative
    else if str_eq text "Faulted"
    then some HardwareStatus.faulted
    else if str_eq text "Unavailable"
    then some HardwareStatus.unavailable
    else none

abbrev pub same_hardware : HardwareStatus → HardwareStatus → Bool
same_hardware operative operative = true
same_hardware HardwareStatus.faulted HardwareStatus.faulted = true
same_hardware HardwareStatus.unavailable HardwareStatus.unavailable = true
same_hardware _ _ = false

abbrev pub is_faulted : ConnectorStatus → Bool
is_faulted ConnectorStatus.faulted = true
is_faulted _ = false

-- `errorCode`; `NoError` is no error.
abbrev pub error_code_of : Fields → Option ℕ
error_code_of payload = elim (string_at "errorCode" payload) [
  | none ↦ none
  | some text ↦ if str_eq text "NoError" then none else some (stored_text text)
]

abbrev unknown_status : String → HandlerError
unknown_status text = refused (record {
  code = property_constraint_violation;
  message = concat "Unknown status \"" (concat text "\"");
  details = field "status" (string text) no_fields;
})

-- `updateOne({ _id }, { $set })` on a charger
abbrev pub update_charger : ℕ → (Charger → Charger) → Store → Store
update_charger k change db = elim (find_by_id k db.chargers) [
  | none ↦ db
  | some c ↦ record db { chargers = save k (change c) db.chargers }
]

abbrev heard_from : (now : ℕ) → Charger → Charger
heard_from now c = record c { is_online = true; last_heartbeat_at = some now }

-- What the machine says of itself is written where it says something new.
abbrev pub reported : (now : ℕ) → HardwareStatus → Option ℕ → Charger → Charger
reported now mapped error_code c =
    let is_fault = not (same_hardware mapped operative) in
    record c {
      hardware_status = mapped;
      fault_code = if is_fault then error_code else none;
      fault_reported_at = if is_fault then some now else none;
    }

module _ (date : JsDate) (now : ℕ) (connection : ChargerConnection) where
  unfoldable pub handle_boot_notification : Fields → Action Gateway HandlerError Fields
  handle_boot_notification payload g =
      let power_kw : ℕ = elim (find_by_id connection.charger_id g.db.chargers) [
        | none ↦ 0
        | some c ↦ c.power_kw
      ] in
      (
        ok (
            field "status" (string "Accepted") (
              field "currentTime" (string (date.to_iso_string now)) (
                field "interval" (number (natural heartbeat_interval_seconds))
                  (field "powerKw" (number (natural power_kw)) no_fields)))),
        record g {
          db = update_charger connection.charger_id (heard_from now) g.db;
          connections = touch_heartbeat now connection.ocpp_id g.connections;
        },
      )

  unfoldable pub handle_heartbeat : Action Gateway HandlerError Fields
  handle_heartbeat g = (
    ok (field "currentTime" (string (date.to_iso_string now)) no_fields),
    record g {
      connections = touch_heartbeat now connection.ocpp_id g.connections;
      db = update_charger connection.charger_id (heard_from now) g.db;
    },
  )

  -- Only a change of the machine's status is acted on; a fault ends every session of the charger.
  unfoldable pub charge_point_reports : HardwareStatus → Option ℕ → Store → Store
  charge_point_reports mapped error_code db = elim (find_by_id connection.charger_id db.chargers) [
    | none ↦ db
    | some previous ↦
        if same_hardware previous.hardware_status mapped
        then db
        else let written = record db {
          chargers =
              save connection.charger_id (reported now mapped error_code previous) db.chargers;
        } in
          if same_hardware mapped HardwareStatus.faulted
          then (fail_open_sessions_for_charger now connection.charger_id hardware_fault
              (charger_reported_fault error_code) written).1
          else written
  ]

  unfoldable pub handle_charge_point_status : String → Option ℕ → Action Gateway HandlerError Fields
  handle_charge_point_status ocpp_status error_code g = elim (charge_point_status_map ocpp_status) [
    | none ↦ (ok no_fields, g)
    | some mapped ↦ (ok no_fields, record g { db = charge_point_reports mapped error_code g.db })
  ]

  -- A plug that faults ends the session on it, once.
  unfoldable pub connector_reports :
      (connector_number : ℕ) → ConnectorStatus → Option ℕ → Store → Store
  connector_reports connector_number mapped error_code db =
      elim (find_one
        (λ (c : Connector).
          c.charger_id == connection.charger_id && c.connector_number == connector_number)
        db.connectors) [
          | none ↦ db
          | some (k, previous) ↦
              let written = record db {
                connectors =
                    save k (record previous { status = mapped; error_code = error_code })
                      db.connectors;
              } in
              if is_faulted mapped && not (is_faulted previous.status)
              then (fail_open_sessions_for_connector now k hardware_fault
                  (connector_reported_fault connector_number error_code) written).1
              else written
        ]

  abbrev on_plug : Number → ConnectorStatus → Option ℕ → Store → Store
  on_plug (natural n) mapped error_code db = connector_reports n mapped error_code db
  on_plug (decimal z) mapped error_code db = db

  abbrev is_charge_point : Number → Bool
  is_charge_point (natural n) = n == 0
  is_charge_point (decimal z) = false

  abbrev dispatch_status : Number → String → Option ℕ → Action Gateway HandlerError Fields
  dispatch_status connector_number ocpp_status error_code g =
      if is_charge_point connector_number
      then handle_charge_point_status ocpp_status error_code g
      else elim (status_map ocpp_status) [
        | none ↦ (err (unknown_status ocpp_status), g)
        | some mapped ↦
            (ok no_fields, record g { db = on_plug connector_number mapped error_code g.db })
      ]

  unfoldable pub handle_status_notification : Fields → Action Gateway HandlerError Fields
  handle_status_notification payload g = elim (require_number payload "connectorId") [
    | err e ↦ (err e, g)
    | ok connector_number ↦ elim (require_string payload "status") [
      | err e ↦ (err e, g)
      | ok ocpp_status ↦ dispatch_status connector_number ocpp_status (error_code_of payload) g
    ]
  ]
