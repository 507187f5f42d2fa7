-- ===== src/Ocpp/Frames.antt =====
-- What one frame of a charger does: `HANDLERS` of backend/src/ocpp/handlers.ts and `onFrame` of
-- backend/src/ocpp/gateway.ts.
use Prim.Native.String.{String}
use text.Mathlib.Text.{◌==◌ as str_eq}
use ev_charger_management_pl.Prelude.{ℕ, Option, none, some, if◌then◌else◌, List, [], ◌∷◌}
use ev_charger_management_pl.Prelude.Result.{Result, ok, err, Action}
use ev_charger_management_pl.Prelude.Table.{ObjectIds}
use ev_charger_management_pl.Ocpp.Json.{
  Json, number, natural, string, array, no_items, ◌⊳◌, Fields, no_fields, JsonLibrary,
}
use ev_charger_management_pl.Ocpp.Messages.{
  OcppMessage, call, OcppErrorCode, not_supported, formation_violation, internal_error,
  error_code_text, parse_message, build_call_result, build_call_error,
}
use ev_charger_management_pl.Ocpp.Registry.{ChargerConnection, touch_heartbeat}
use ev_charger_management_pl.Ocpp.Commands.{Calls, handle_response}
use ev_charger_management_pl.Ocpp.Gateway.{
  Gateway, JsDate, HandlerError, refused, unexpected, concat,
}
use ev_charger_management_pl.Ocpp.Status.{
  handle_boot_notification, handle_heartbeat, handle_status_notification,
}
use ev_charger_management_pl.Ocpp.Transactions.{
  handle_authorize, handle_start_transaction, handle_meter_values, handle_stop_transaction,
}

abbrev pub Handler : Type 0
Handler = Fields → Action Gateway HandlerError Fields

abbrev pub handler_of : String → List (String × Handler) → Option Handler
handler_of action [] = none
handler_of action ((name, handler) ∷ rest) =
    if str_eq action name then some handler else handler_of action rest

module _ (js : JsonLibrary) (date : JsDate) (ids : ObjectIds) (now : ℕ)
    (connection : ChargerConnection) (inherited : String → Option (Result HandlerError Json)) where
  unfoldable pub handlers : List (String × Handler)
  handlers =
      ("BootNotification", handle_boot_notification date now connection)
      ∷ ("Heartbeat", λ payload. handle_heartbeat date now connection)
      ∷ ("StatusNotification", handle_status_notification date now connection)
      ∷ ("Authorize", handle_authorize date ids now connection)
      ∷ ("StartTransaction", handle_start_transaction date ids now connection)
      ∷ ("MeterValues", handle_meter_values date ids now connection)
      ∷ ("StopTransaction", handle_stop_transaction date ids now connection)
      ∷ []

  abbrev error_frame : String → OcppErrorCode → String → Fields → js.Raw
  error_frame id code description details =
      build_call_error js id (error_code_text code) description details

  abbrev pub answer_call : String → Result HandlerError Fields → js.Raw
  answer_call id (ok payload) = build_call_result js id payload
  answer_call id (err (refused e)) = error_frame id e.code e.message e.details
  answer_call id (err unexpected) = error_frame id internal_error "Internal gateway error" no_fields

  -- The result of a function of `Object.prototype` is sent as it is.
  abbrev answer_inherited : String → Result HandlerError Json → js.Raw
  answer_inherited id (ok payload) =
      js.stringify (array (number (natural 3) ⊳ string id ⊳ payload ⊳ no_items))
  answer_inherited id (err (refused e)) = error_frame id e.code e.message e.details
  answer_inherited id (err unexpected) =
      error_frame id internal_error "Internal gateway error" no_fields

  -- What is sent back for a call. `HANDLERS` is a plain object, so that an action that it does not have
  -- is looked up in `Object.prototype`: `inherited` gives what a call of what is found there
  -- returns or throws. None of them writes to the gateway.
  unfoldable pub on_call : (id action : String) → Fields → Gateway → js.Raw × Gateway
  on_call id action payload g = elim (handler_of action handlers) [
    | none ↦ elim (inherited action) [
      | none ↦ (
        error_frame id not_supported (concat "Action \"" (concat action "\" is not supported"))
            no_fields,
        g,
      )
      | some result ↦ (answer_inherited id result, g)
    ]
    | some handler ↦ let (result, g') = handler payload g in (answer_call id result, g')
  ]

  abbrev heard : Gateway → Gateway
  heard g = record g { connections = touch_heartbeat now connection.ocpp_id g.connections }

  abbrev pub on_message : Option OcppMessage → Gateway → Calls → Option js.Raw × (Gateway × Calls)
  on_message none g c =
      (some (error_frame "0" formation_violation "Could not parse message" no_fields), (g, c))
  on_message (some (call id action payload)) g c =
      let (reply, g') = on_call id action payload (heard g) in (some reply, (g', c))
  on_message (some reply) g c = (none, (heard g, (handle_response reply c).1))

  -- The frame that is sent back, if any, and the state that the frame leaves.
  unfoldable pub on_frame : js.Raw → Gateway → Calls → Option js.Raw × (Gateway × Calls)
  on_frame raw g c = on_message (parse_message js raw) g c
