-- ===== src/Ocpp/Gateway.antt =====
-- What the handlers of backend/src/ocpp/handlers.ts share: the state that they work on, their errors and
-- the reading of a payload. Log lines, notifications and pushes to browsers are left out. A text that
-- the database stores is a number there, `stored_text`.
use Prim.Native.Char.{code}
use Prim.Native.String.{String, count, ◌++◌ as followed_by}
use ev_charger_management_pl.Prelude.{ℕ, ◌+◌, ◌*◌, ◌^◌, Option, none, some, ◌==◌, if◌then◌else◌}
use ev_charger_management_pl.Prelude.Result.{Result, ok, err}
use ev_charger_management_pl.Store.{Store}
use ev_charger_management_pl.Ocpp.Json.{
  string, number, Number, Fields, no_fields, field, property_of,
}
use ev_charger_management_pl.Ocpp.Messages.{OcppErrorCode, property_constraint_violation}
use ev_charger_management_pl.Ocpp.Registry.{Registry}

-- Each text has its own number.
abbrev pub stored_text : String → ℕ
stored_text String.[] = 0
stored_text (String.◌∷◌ c s) = 2 ^ code c * (2 * stored_text s + 1)

-- The registry, the counter of transaction ids and the database.
pub record Gateway : Type 0 where
  pub connections : Registry
  pub next_transaction_id : ℕ
  pub db : Store

-- `Date`: the moment that a text writes, if it does, and the text of a moment.
pub record JsDate : Type 0 where
  pub moment_of : String → Option ℕ
  pub to_iso_string : ℕ → String

pub record OcppError : Type 0 where
  pub code : OcppErrorCode
  pub message : String
  pub details : Fields

-- What a handler throws: an `OcppError`, or the error of a call that it makes.
pub data HandlerError : Type 0 where
  refused : OcppError → HandlerError
  unexpected : HandlerError

abbrev pub concat : String → String → String
concat a b = followed_by a b

abbrev invalid : String → HandlerError
invalid name = refused (record {
  code = property_constraint_violation;
  message = concat "Missing or invalid \"" (concat name "\"");
  details = field "field" (string name) no_fields;
})

unfoldable pub require_string : Fields → String → Result HandlerError String
require_string payload name = elim (property_of name payload) [
  | some (string text) ↦ if count text == 0 then err (invalid name) else ok text
  | _ ↦ err (invalid name)
]

-- A JSON number is finite.
unfoldable pub require_number : Fields → String → Result HandlerError Number
require_number payload name = elim (property_of name payload) [
  | some (number n) ↦ ok n
  | _ ↦ err (invalid name)
]

-- `typeof payload.x === 'number' ? payload.x : null`, and the same for a text
abbrev pub number_at : String → Fields → Option Number
number_at name payload = elim (property_of name payload) [ some (number n) ↦ some n | _ ↦ none ]

abbrev pub string_at : String → Fields → Option String
string_at name payload = elim (property_of name payload) [
  | some (string text) ↦ some text
  | _ ↦ none
]

-- `parseChargerTime` reads a text that is a date.
abbrev pub timestamp_of : JsDate → Fields → Option ℕ
timestamp_of date payload = elim (string_at "timestamp" payload) [
  | none ↦ none
  | some text ↦ date.moment_of text
]
