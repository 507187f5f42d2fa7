-- ===== src/Session/Starting.antt =====
-- `startSession` of backend/src/services/chargingSession.service.ts. It is written as its two parts,
-- since the charger may report the start while its answer is awaited: the checks with the creation of
-- the session, and what is done with the answer. The registry of connections, the charger's answer
-- and the random tag are parameters; labels, log lines and notifications are left out.
use ev_charger_management_pl.Prelude.{
  ℕ, Option, none, some, Bool, not, ◌&&◌, ◌==◌, is_some, if◌then◌else◌,
}
use ev_charger_management_pl.Prelude.Result.{
  Result, ok, err, Action, gets, require, throw_if, ◌>>=◌, ◌>>◌,
}
use ev_charger_management_pl.Prelude.Table.{Table, ObjectIds, find_by_id, find_one, create}
use ev_charger_management_pl.Access.{AuthUser, Role}
use ev_charger_management_pl.Models.Charger.{
  Charger, Connector, Vehicle, Tariff, same_plug, ChargerStatus, HardwareStatus, ConnectorStatus,
  ConnectorType,
}
use ev_charger_management_pl.Models.Session.{
  SessionStatus, initiating, failed, is_open, unpaid, StopReason, start_timeout, FailureReason,
  charger_rejected_start, charger_did_not_respond, ChargingSession, Text, session_owned,
}
use ev_charger_management_pl.Store.{Store}
use ev_charger_management_pl.Payment.Arrears.{assess_arrears}
use ev_charger_management_pl.Session.Events.{save_session}

-- Why a connector cannot be started, in the order of the code.
pub data Unstartable : Type 0 where
  charger_is : ChargerStatus → Unstartable
  not_connected has_fault out_of_service in_use : Unstartable
  connector_is : ConnectorStatus → Unstartable

abbrev by_connector : ConnectorStatus → Option Unstartable
by_connector ConnectorStatus.faulted = some (connector_is ConnectorStatus.faulted)
by_connector ConnectorStatus.unavailable = some (connector_is ConnectorStatus.unavailable)
by_connector ConnectorStatus.charging = some in_use
by_connector ConnectorStatus.occupied = some in_use
by_connector _ = none

abbrev by_hardware : HardwareStatus → ConnectorStatus → Option Unstartable
by_hardware HardwareStatus.faulted _ = some has_fault
by_hardware HardwareStatus.unavailable _ = some out_of_service
by_hardware HardwareStatus.operative c = by_connector c

-- The reason, or nothing when the connector can start.
unfoldable pub assess_startability :
    ConnectorStatus → ChargerStatus → (is_online : Bool) → HardwareStatus → Option Unstartable
assess_startability c ChargerStatus.available is_online h =
    if not is_online then some not_connected else by_hardware h c
assess_startability c status is_online h = some (charger_is status)

pub data ControlError : Type 0 where
  already_charging connector_not_found : ControlError
  cannot_start : Unstartable → ControlError
  not_on_gateway vehicle_not_found wrong_plug no_price in_arrears : ControlError
  connector_busy duplicate_id_tag charger_rejected no_answer : ControlError
  session_not_found scope_refused reason_required no_transaction : ControlError
  already_ended : SessionStatus → ControlError

abbrev open_of : ℕ → ChargingSession → Bool
open_of user_id s = s.user_id == user_id && is_open s.status

-- Only the driver's own vehicle, and only one that has this plug.
unfoldable pub resolve_vehicle :
    ℕ → Option ℕ → ConnectorType → Table Vehicle → Result ControlError (Option ℕ)
resolve_vehicle user_id none plug vehicles = ok none
resolve_vehicle user_id (some vehicle_id) plug vehicles = elim (find_by_id vehicle_id vehicles) [
  | none ↦ err vehicle_not_found
  | some v ↦
      if not (v.user_id == user_id)
      then err vehicle_not_found
      else if same_plug v.connector_type plug
      then ok (some vehicle_id)
      else err wrong_plug
]

-- `findActiveTariffForCompany`
unfoldable pub find_active_tariff : (company_id : ℕ) → Table Tariff → Option (ℕ × Tariff)
find_active_tariff company_id tariffs =
    find_one (λ (t : Tariff). t.company_id == company_id && t.is_active) tariffs

-- The session that a start creates.
abbrev pub requested :
    (now user_id id_tag : ℕ)
    → (vehicle_id : Option ℕ) → (connector_id : ℕ) → Connector
    → Charger
    → ℕ × Tariff
    → ChargingSession
requested now user_id id_tag vehicle_id connector_id connector charger tariff = record {
  user_id = user_id;
  vehicle_id = vehicle_id;
  company_id = charger.company_id;
  station_id = charger.station_id;
  charger_id = connector.charger_id;
  connector_id = connector_id;
  connector_number = connector.connector_number;
  charger_type = charger.charger_type;
  connector_type = connector.connector_type;
  transaction_id = none;
  id_tag = id_tag;
  status = initiating;
  requested_at = now;
  started_at = none;
  ended_at = none;
  start_meter_wh = none;
  last_meter_wh = none;
  end_meter_wh = none;
  energy_consumed_wh = 0;
  stop_reason = none;
  failure_reason = none;
  stopped_by_role = none;
  stop_note = none;
  applied_tariff_id = some tariff.0;
  applied_price_per_kwh_paise = some tariff.1.price_per_kwh_paise;
  amount_paise = none;
  payment_status = unpaid;
}

-- Does the test hold of some session?
abbrev pub any_session : (ChargingSession → Bool) → Table ChargingSession → Bool
any_session p t = is_some (find_one p t)

-- The insert, with the unique indexes on the open sessions of a connector and of a driver, and on the tags.
unfoldable pub create_session :
    ObjectIds → ChargingSession → Action Store ControlError (ℕ × ChargingSession)
create_session ids s db =
    if any_session (open_of s.user_id) db.sessions
    then (err already_charging, db)
    else if any_session
        (λ (o : ChargingSession). o.connector_id == s.connector_id && is_open o.status) db.sessions
    then (err connector_busy, db)
    else if any_session (λ (o : ChargingSession). o.id_tag == s.id_tag) db.sessions
    then (err duplicate_id_tag, db)
    else let k = ids.fresh _ db.sessions in
      (ok (k, s), record db { sessions = create k s db.sessions })

pub record StartSessionInput : Type 0 where
  pub connector_id : ℕ
  pub vehicle_id : Option ℕ

-- What the code reads besides the store, the gateway's connections included.
pub record Surroundings : Type 0 where
  pub vehicles : Table Vehicle
  pub tariffs : Table Tariff
  pub is_connected : (ocpp_id : ℕ) → Bool

abbrev fitting : Result ControlError (Option ℕ) → Action Store ControlError (Option ℕ)
fitting (ok v) db = (ok v, db)
fitting (err e) db = (err e, db)

abbrev startable : Option Unstartable → Action Store ControlError (Unit {0})
startable none db = (ok tt, db)
startable (some reason) db = (err (cannot_start reason), db)

-- `startSession` up to the request to the charger: the session that waits for the charger.
unfoldable pub request_start :
    ObjectIds
    → Surroundings
    → (now id_tag : ℕ) → AuthUser
    → StartSessionInput
    → Action Store ControlError (ℕ × ChargingSession)
request_start ids env now id_tag actor input = do
  running ← gets (λ db. any_session (open_of actor.id) db.sessions)
  throw_if running already_charging
  found ← gets (λ db. find_by_id input.connector_id db.connectors)
  connector ← require found connector_not_found
  parent ← gets (λ db. find_by_id connector.charger_id db.chargers)
  charger ← require parent connector_not_found
  startable (
      assess_startability connector.status charger.status charger.is_online charger.hardware_status)
  throw_if (not (env.is_connected charger.ocpp_id)) not_on_gateway
  vehicle_id ←
      fitting (resolve_vehicle actor.id input.vehicle_id connector.connector_type env.vehicles)
  tariff ← require (find_active_tariff charger.company_id env.tariffs) no_price
  arrears ← gets (assess_arrears now actor.id)
  throw_if arrears.blocked in_arrears
  create_session ids
      (requested now actor.id id_tag vehicle_id input.connector_id connector charger tariff)

-- `{ role, note }`
pub record StopAttribution : Type 0 where
  pub role : Role
  pub note : Option Text

abbrev pub attributed : Option StopAttribution → ChargingSession → ChargingSession
attributed none s = s
attributed (some by) s = record s { stopped_by_role = some by.role; stop_note = by.note }

abbrev pub given_up :
    (now : ℕ)
    → StopReason
    → FailureReason
    → Option StopAttribution
    → ChargingSession
    → ChargingSession
given_up now stop_reason failure_reason stopped_by s = attributed stopped_by (record s {
  status = failed;
  ended_at = some now;
  stop_reason = some stop_reason;
  failure_reason = some failure_reason;
})

unfoldable pub mark_failed :
    (now : ℕ)
    → ℕ × ChargingSession
    → StopReason
    → FailureReason
    → Option StopAttribution
    → Store
    → Store
mark_failed now row stop_reason failure_reason stopped_by db =
    save_session row.0 (given_up now stop_reason failure_reason stopped_by row.1) db

-- What the charger says to a remote start or stop.
pub data RemoteAnswer : Type 0 where
  accepted rejected no_answer : RemoteAnswer

-- `startSession` from the charger's answer on, with the session as it was created.
unfoldable pub on_start_answer :
    (now : ℕ) → ℕ × ChargingSession → RemoteAnswer → Action Store ControlError (ℕ × ChargingSession)
on_start_answer now row RemoteAnswer.accepted db = (ok row, db)
on_start_answer now row RemoteAnswer.rejected db =
    (err charger_rejected, mark_failed now row StopReason.rejected charger_rejected_start none db)
on_start_answer now row RemoteAnswer.no_answer db =
    (err ControlError.no_answer, mark_failed now row start_timeout charger_did_not_respond none db)

unfoldable pub start_session :
    ObjectIds
    → Surroundings
    → (now id_tag : ℕ) → AuthUser
    → StartSessionInput
    → RemoteAnswer
    → Action Store ControlError (ℕ × ChargingSession)
start_session ids env now id_tag actor input answer = do
  row ← request_start ids env now id_tag actor input
  on_start_answer now row answer
