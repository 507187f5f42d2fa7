-- ===== src/Ocpp/Transactions.antt =====
-- The transactions that a charger reports: `handleAuthorize`, `handleStartTransaction`,
-- `handleMeterValues` and `handleStopTransaction` of backend/src/ocpp/handlers.ts.
use Prim.Native.String.{String}
use ev_charger_management_pl.Prelude.{ℕ, Option, none, some, or_else, get_or}
use mathlib.Core.Option
use ev_charger_management_pl.Prelude.Int.{ℤ}
use ev_charger_management_pl.Prelude.Result.{Result, ok, err, Action}
use ev_charger_management_pl.Prelude.Table.{ObjectIds}
use ev_charger_management_pl.Store.{Store}
use ev_charger_management_pl.Session.Events.{
  AuthorizeStatus, invalid, blocked, authorize_id_tag, StartTransactionInput, StartOutcome,
  SessionError, on_start_transaction, on_meter_values, on_stop_transaction,
}
use ev_charger_management_pl.Ocpp.Json.{
  string, number, object, Number, natural, decimal, hundredths, whole, Fields, no_fields, field,
}
use ev_charger_management_pl.Ocpp.Registry.{
  ActiveTransaction, ChargerConnection, Registry, allocate_transaction_id, set_transaction,
  clear_transaction, get_transaction_by_connector, find_transaction_by_id,
}
use ev_charger_management_pl.Ocpp.Gateway.{
  Gateway, JsDate, HandlerError, unexpected, require_string, require_number, number_at,
  timestamp_of, stored_text,
}

-- `{ idTagInfo: { status } }`, at the end of a payload
abbrev pub id_tag_info : String → Fields
id_tag_info status = field "idTagInfo" (object (field "status" (string status) no_fields)) no_fields

abbrev authorize_text : AuthorizeStatus → String
authorize_text AuthorizeStatus.accepted = "Accepted"
authorize_text invalid = "Invalid"
authorize_text blocked = "Blocked"

abbrev pub with_transaction : (transaction_id : ℕ) → String → Fields
with_transaction transaction_id status =
    field "transactionId" (number (natural transaction_id)) (id_tag_info status)

-- The transaction that a payload names, by its id, or by the connector that it runs on.
abbrev of_connector : (ocpp_id : ℕ) → Registry → Option ℕ → Option Number
of_connector ocpp_id r none = none
of_connector ocpp_id r (some connector_number) =
    Option.map (λ (t : ActiveTransaction). natural t.transaction_id)
      (get_transaction_by_connector ocpp_id connector_number r)

abbrev pub whole_at : String → Fields → Option ℕ
whole_at name payload = elim (number_at name payload) [ none ↦ none | some n ↦ whole n ]

unfoldable pub named_transaction : (ocpp_id : ℕ) → Fields → Registry → Option Number
named_transaction ocpp_id payload r =
    or_else (number_at "transactionId" payload)
      (of_connector ocpp_id r (whole_at "connectorId" payload))

module _ (date : JsDate) (ids : ObjectIds) (now : ℕ) (connection : ChargerConnection) where
  unfoldable pub handle_authorize : Fields → Action Gateway HandlerError Fields
  handle_authorize payload g = elim (require_string payload "idTag") [
    | err e ↦ (err e, g)
    | ok id_tag ↦
        (ok (id_tag_info (authorize_text (authorize_id_tag now (stored_text id_tag) g.db))), g)
  ]

  -- A start that is refused is told a throwaway id, since the protocol wants a number.
  abbrev told_not_to : Gateway → Result HandlerError Fields × Gateway
  told_not_to g =
      let throwaway = allocate_transaction_id g.next_transaction_id in
      (ok (with_transaction throwaway "Invalid"), record g { next_transaction_id = throwaway })

  -- A connector's number is the key of the transaction here if it is a natural number.
  abbrev remembered : Number → (id_tag transaction_id : ℕ) → ℤ → Registry → Registry
  remembered (decimal z) id_tag transaction_id meter_start_wh r = r
  remembered (natural n) id_tag transaction_id meter_start_wh r =
      set_transaction connection.ocpp_id
        (record {
          transaction_id = transaction_id;
          connector_number = n;
          id_tag = id_tag;
          meter_start_wh = meter_start_wh;
          started_at = now;
        })
        r

  abbrev pub answer_start :
      Number
      → (id_tag : ℕ) → ℤ
      → Result SessionError StartOutcome
      → Gateway
      → Result HandlerError Fields × Gateway
  answer_start n id_tag meter_start_wh (err e) g = (err unexpected, g)
  answer_start n id_tag meter_start_wh (ok (StartOutcome.accepted (k, s))) g =
      elim s.transaction_id [
        | none ↦ told_not_to g
        | some transaction_id ↦ (
          ok (with_transaction transaction_id "Accepted"),
          record g {
            connections = remembered n id_tag transaction_id meter_start_wh g.connections;
          },
        )
      ]
  answer_start n id_tag meter_start_wh (ok outcome) g = told_not_to g

  -- `onStartTransaction` reads no connector.
  abbrev pub start_input : Fields → Number → (id_tag : ℕ) → Number → StartTransactionInput
  start_input payload connector_number id_tag meter_start = record {
    charger_id = connection.charger_id;
    connector_number = get_or (whole connector_number) 0;
    id_tag = id_tag;
    meter_start_wh = hundredths meter_start;
    timestamp = timestamp_of date payload;
  }

  abbrev pub begin_transaction :
      Fields → Number → (id_tag : ℕ) → Number → Gateway → Result HandlerError Fields × Gateway
  begin_transaction payload n id_tag meter_start g =
      let (outcome, (next, db)) =
        on_start_transaction now (start_input payload n id_tag meter_start) g.next_transaction_id
          g.db in
      answer_start n id_tag (hundredths meter_start) outcome
        (record g { next_transaction_id = next; db = db })

  unfoldable pub handle_start_transaction : Fields → Action Gateway HandlerError Fields
  handle_start_transaction payload g = elim (require_number payload "connectorId") [
    | err e ↦ (err e, g)
    | ok n ↦ elim (require_string payload "idTag") [
      | err e ↦ (err e, g)
      | ok id_tag ↦ elim (require_number payload "meterStart") [
        | err e ↦ (err e, g)
        | ok meter_start ↦ begin_transaction payload n (stored_text id_tag) meter_start g
      ]
    ]
  ]

  -- No session has a transaction id that is no natural number.
  abbrev pub store_values : Fields → Number → Option Number → Store → Store
  store_values payload energy none db = db
  store_values payload energy (some (decimal z)) db = db
  store_values payload energy (some (natural transaction_id)) db =
      (on_meter_values ids now
        (record {
          transaction_id = transaction_id;
          energy_wh = hundredths energy;
          power_kw = Option.map hundredths (number_at "powerKw" payload);
          soc_percent = Option.map hundredths (number_at "socPercent" payload);
          timestamp = timestamp_of date payload;
        })
        db).1

  -- A reading that is not stored is answered like one that is.
  unfoldable pub handle_meter_values : Fields → Action Gateway HandlerError Fields
  handle_meter_values payload g = elim (require_number payload "energyWh") [
    | err e ↦ (err e, g)
    | ok energy ↦ (
      ok no_fields,
      record g {
        db =
            store_values payload energy (named_transaction connection.ocpp_id payload g.connections)
              g.db;
      },
    )
  ]

  abbrev pub finish : Fields → Number → Option Number → Store → Store
  finish payload meter_stop none db = db
  finish payload meter_stop (some (decimal z)) db = db
  finish payload meter_stop (some (natural transaction_id)) db =
      (on_stop_transaction now
        (record {
          transaction_id = transaction_id;
          meter_stop_wh = hundredths meter_stop;
          timestamp = timestamp_of date payload;
        })
        db).1

  abbrev connector_of : Option Number → Registry → Option ℕ
  connector_of (some (natural transaction_id)) r =
      Option.map (λ (t : ActiveTransaction). t.connector_number)
        (find_transaction_by_id connection.ocpp_id transaction_id r)
  connector_of transaction r = none

  -- Only the connector that stopped is forgotten.
  abbrev pub forget : Fields → Option Number → Registry → Registry
  forget payload transaction r =
      elim (or_else (connector_of transaction r) (whole_at "connectorId" payload)) [
        | none ↦ r
        | some stopped ↦ clear_transaction connection.ocpp_id stopped r
      ]

  unfoldable pub handle_stop_transaction : Fields → Action Gateway HandlerError Fields
  handle_stop_transaction payload g = elim (require_number payload "meterStop") [
    | err e ↦ (err e, g)
    | ok meter_stop ↦
        let transaction = named_transaction connection.ocpp_id payload g.connections in
        (
          ok (id_tag_info "Accepted"),
          record g {
            db = finish payload meter_stop transaction g.db;
            connections = forget payload transaction g.connections;
          },
        )
  ]
