-- ===== src/Tests/Gateway.antt =====
-- Runs of the OCPP gateway on sample frames.
use Prim.Native.String.{String}
use text.Mathlib.Text.{◌==◌ as str_eq}
use ev_charger_management_pl.Prelude.{
  ◌+◌, ◌≡◌, refl, Option, none, some, true, [], ◌∷◌, if◌then◌else◌,
}
use ev_charger_management_pl.Prelude.Result.{Result, ok, err}
use ev_charger_management_pl.Prelude.Table.{find_by_id, find_one}
use ev_charger_management_pl.Models.Charger.{Charger, ac, ChargerStatus, operative}
use ev_charger_management_pl.Models.Session.{ChargingSession, initiating}
use ev_charger_management_pl.Store.{Store}
use ev_charger_management_pl.Session.Events.{on_start_transaction, confirm_start, is_taken}
use ev_charger_management_pl.Ocpp.Json.{
  Json, Fields, field, no_fields, number, natural, string, property_of, JsonLibrary,
}
use ev_charger_management_pl.Ocpp.Messages.{
  OcppMessage, call, call_result, is_unique_id, read_frame, frame_of, parse_message,
}
use ev_charger_management_pl.Ocpp.Registry.{ChargerConnection}
use ev_charger_management_pl.Ocpp.Commands.{Calls, action_of, send_call, handle_response}
use ev_charger_management_pl.Ocpp.Gateway.{
  Gateway, JsDate, HandlerError, unexpected, require_string, require_number, stored_text,
}
use ev_charger_management_pl.Ocpp.Roundtrip.{build, parse-build}
use ev_charger_management_pl.Ocpp.Frames.{on_frame}
use ev_charger_management_pl.Ocpp.Replies.{is_answered, frame_answered}
use ev_charger_management_pl.Ocpp.Connections.{
  AuthenticatedCharger, connected, on_connection, on_close,
}
use ev_charger_management_pl.Ocpp.Status.{handle_status_notification}
use ev_charger_management_pl.Ocpp.Transactions.{named_transaction, handle_start_transaction}
use ev_charger_management_pl.Ocpp.Routing.{started_named, late_close}
use ev_charger_management_pl.Ocpp.Accounts.{nothing_sent, sent_one, replied, times, settled_once}
use ev_charger_management_pl.Tests.Sample.{counted_ids, charge, credited}

-- Frames that are the values that they write.
abbrev plain_json : JsonLibrary
plain_json = record {
  Raw = Json;
  parse = λ v. some v;
  stringify = λ v. v;
  parse-stringify = λ v. refl;
}

abbrev dateless : JsDate
dateless = record { moment_of = λ text. none; to_iso_string = λ now. "" }

abbrev box : AuthenticatedCharger
box = record { ocpp_id = 11; charger_id = 5; company_id = 2 }

abbrev asked : ChargingSession
asked = record charge {
  transaction_id = none;
  id_tag = stored_text "A";
  status = initiating;
  started_at = none;
  ended_at = none;
  start_meter_wh = none;
  last_meter_wh = none;
  end_meter_wh = none;
  energy_consumed_wh = 0;
  amount_paise = none;
}

abbrev machine : Charger
machine = record {
  station_id = 4;
  company_id = 2;
  created_by = 1;
  charger_code = 3;
  ocpp_id = 11;
  power_kw = 7;
  charger_type = ac;
  status = ChargerStatus.available;
  is_online = true;
  last_heartbeat_at = some 900;
  hardware_status = operative;
  fault_code = none;
  fault_reported_at = none;
}

abbrev box_connection : ChargerConnection
box_connection = connected 500 80 box

abbrev gateway : Gateway
gateway = record {
  connections = (11, box_connection) ∷ [];
  next_transaction_id = 1_000;
  db = record credited { sessions = (3, asked) ∷ []; chargers = (5, machine) ∷ [] };
}

abbrev heartbeat : OcppMessage
heartbeat = call "7" "Heartbeat" no_fields

parse-build_example : parse_message plain_json (build plain_json heartbeat) ≡ some heartbeat
unfolding is_unique_id
parse-build_example = parse-build plain_json heartbeat

abbrev nothing_waits : Calls
nothing_waits = record { pending = []; settled = [] }

-- `toString` answers a text, and `hasOwnProperty` throws.
abbrev of_every_object : String → Option (Result HandlerError Json)
of_every_object action =
    if str_eq action "toString"
    then some (ok (string "[object Undefined]"))
    else if str_eq action "hasOwnProperty"
    then some (err unexpected)
    else none

frame_answered_example :
    is_answered plain_json
      (parse_message plain_json (frame_of heartbeat))
      (on_frame plain_json dateless counted_ids 600 box_connection of_every_object
        (frame_of heartbeat)
        gateway
        nothing_waits).0
    ≡ true
unfolding parse_message read_frame is_unique_id
frame_answered_example =
    frame_answered plain_json dateless counted_ids 600 box_connection of_every_object
      (frame_of heartbeat) gateway nothing_waits refl

abbrev start_payload : Fields
start_payload =
    field "connectorId" (number (natural 1))
      (field "idTag" (string "A") (field "meterStart" (number (natural 0)) no_fields))

abbrev report : Fields
report =
    field "connectorId" (number (natural 1)) (field "energyWh" (number (natural 250)) no_fields)

started_named_example :
    named_transaction 11 report
      (handle_start_transaction dateless counted_ids 600 box_connection start_payload
        gateway).1.connections
    ≡ some (natural 1_001)
unfolding find_by_id find_one property_of require_number require_string handle_start_transaction
    on_start_transaction confirm_start is_taken
started_named_example =
    started_named dateless counted_ids 600 box_connection start_payload report gateway
      box_connection 1 1 1_001 refl refl refl refl refl

late_close_example :
    on_close 800 80 1_006 box (on_connection 700 81 box gateway).1
    ≡ (on_connection 700 81 box gateway).1
late_close_example = late_close 700 800 81 80 1_006 box gateway refl

abbrev stop_sent : Calls
stop_sent = (send_call "a" "RemoteStopTransaction" no_fields none nothing_waits).1

abbrev stop_answered : Calls
stop_answered = (handle_response (call_result "a" no_fields) stop_sent).1

settled_once_example : times "a" stop_answered.pending + times "a" stop_answered.settled ≡ 1
unfolding times action_of
settled_once_example = settled_once (("a", "RemoteStopTransaction") ∷ []) stop_answered "a" (
    replied (call_result "a" no_fields) (("a", "RemoteStopTransaction") ∷ []) stop_sent
      (sent_one "a" "RemoteStopTransaction" no_fields none [] nothing_waits nothing_sent refl))

abbrev fault_payload : Fields
fault_payload =
    field "connectorId" (number (natural 0))
      (field "status" (string "Faulted") (field "errorCode" (string "GroundFailure") no_fields))

abbrev after_fault : Store
after_fault = (handle_status_notification dateless 650 box_connection fault_payload gateway).1.db
