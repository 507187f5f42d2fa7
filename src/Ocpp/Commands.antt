-- ===== src/Ocpp/Commands.antt =====
-- Commands to chargers and the replies that they wait for: backend/src/ocpp/commands.ts. A promise is
-- settled where its `resolve` or `reject` is called; `settled` keeps those calls in order. The id of a
-- command is drawn at random, and whether the socket takes the frame is its own affair.
use Prim.Native.String.{String}
use text.Mathlib.Text.{◌==◌ as str_eq}
use ev_charger_management_pl.Prelude.{
  ℕ, Option, none, some, Bool, true, false, if◌then◌else◌, List, [], ◌∷◌, ◌++◌,
}
use ev_charger_management_pl.Ocpp.Json.{Fields, no_fields, number, natural, string, field}
use ev_charger_management_pl.Ocpp.Messages.{
  OcppMessage, call, call_result, call_error, error_code_text, internal_error,
}
use ev_charger_management_pl.Ocpp.Gateway.{concat}

-- `RESPONSE_TIMEOUT_MS`, after which `time_out` runs
abbrev pub response_timeout_ms : ℕ
response_timeout_ms = 10_000

pub data Answer : Type 0 where
  resolved : Fields → Answer
  rejected : (code description : String) → Fields → Answer

pub record Calls : Type 0 where
  -- The action of each command that waits, by its id.
  pub pending : List (String × String)
  pub settled : List (String × Answer)

unfoldable pub action_of : String → List (String × String) → Option String
action_of id [] = none
action_of id ((other, action) ∷ rest) = if str_eq other id then some action else action_of id rest

-- `pending.delete`
unfoldable pub without : String → List (String × String) → List (String × String)
without id [] = []
without id ((other, action) ∷ rest) =
    if str_eq other id then rest else (other, action) ∷ without id rest

abbrev pub settle : String → Answer → Calls → Calls
settle id result c = record c {
  pending = without id c.pending;
  settled = c.settled ++ (id, result) ∷ [];
}

abbrev pub failure : String → Answer
failure description = rejected (error_code_text internal_error) description no_fields

-- A reply settles the command that waits under its id. The result says whether one did.
abbrev pub reply_to : String → Answer → Calls → Bool × Calls
reply_to id result c = elim (action_of id c.pending) [
  | none ↦ (false, c)
  | some action ↦ (true, settle id result c)
]

unfoldable pub handle_response : OcppMessage → Calls → Bool × Calls
handle_response (call id action payload) c = (false, c)
handle_response (call_result id payload) c = reply_to id (resolved payload) c
handle_response (call_error id code description details) c =
    reply_to id (rejected code description details) c

-- A command that the socket does not take fails at once; the socket's error is `cause`.
unfoldable pub send_call :
    (id action : String) → Fields → (cause : Option String) → Calls → Option OcppMessage × Calls
send_call id action payload cause c =
    let waiting = record c { pending = c.pending ++ (id, action) ∷ [] } in
    elim cause [
      | none ↦ (some (call id action payload), waiting)
      | some why ↦ (
        none,
        settle id (failure (concat "Failed to send " (concat action (concat ": " why)))) waiting,
      )
    ]

-- The timer of a command, which is cleared when the command is settled.
unfoldable pub time_out : String → Calls → Calls
time_out id c = elim (action_of id c.pending) [
  | none ↦ c
  | some action ↦ settle id (failure (concat "Charger did not respond to " action)) c
]

abbrev pub cancelled : (reason : String) → List (String × String) → List (String × Answer)
cancelled reason [] = []
cancelled reason ((id, action) ∷ rest) = (id, failure reason) ∷ cancelled reason rest

unfoldable pub cancel_pending : (reason : String) → Calls → Calls
cancel_pending reason c = record c {
  pending = [];
  settled = c.settled ++ cancelled reason c.pending;
}

unfoldable pub send_remote_start :
    (id : String)
    → (connector_number : ℕ) → (id_tag : String) → (cause : Option String) → Calls
    → Option OcppMessage × Calls
send_remote_start id connector_number id_tag cause c =
    send_call id "RemoteStartTransaction"
      (field "connectorId" (number (natural connector_number))
        (field "idTag" (string id_tag) no_fields))
      cause c

unfoldable pub send_remote_stop :
    (id : String)
    → (transaction_id : ℕ) → (cause : Option String) → Calls
    → Option OcppMessage × Calls
send_remote_stop id transaction_id cause c =
    send_call id "RemoteStopTransaction"
      (field "transactionId" (number (natural transaction_id)) no_fields) cause c
