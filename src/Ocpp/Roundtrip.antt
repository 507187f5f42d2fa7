-- ===== src/Ocpp/Roundtrip.antt =====
-- The builders and the parser of frames undo each other (backend/src/ocpp/messages.ts).
use Prim.Native.String.{count}
use ev_charger_management_pl.Prelude.{
  ◌≡◌, refl, none, some, Bool, not, ◌&&◌, ◌==◌, if◌then◌else◌, arith,
}
use ev_charger_management_pl.Ocpp.Json.{Json, JsonLibrary}
use ev_charger_management_pl.Ocpp.Messages.{
  OcppMessage, call, call_result, call_error, is_unique_id, read_frame, frame_of, parse_message,
  build_call, build_call_result, build_call_error,
}

-- A message that the protocol allows: an id of 1 to 64 characters, and a call names its action.
abbrev pub is_sendable : OcppMessage → Bool
is_sendable (call id action payload) = is_unique_id id && not (count action == 0)
is_sendable (call_result id payload) = is_unique_id id
is_sendable (call_error id code description details) = is_unique_id id

module _ (js : JsonLibrary) where
  -- The builder of each kind of message.
  abbrev pub build : OcppMessage → js.Raw
  build (call id action payload) = build_call js id action payload
  build (call_result id payload) = build_call_result js id payload
  build (call_error id code description details) = build_call_error js id code description details

  build-frame_of : (message : OcppMessage) → build message ≡ js.stringify (frame_of message)
  unfolding build_call build_call_result build_call_error
  build-frame_of (call id action payload) = refl
  build-frame_of (call_result id payload) = refl
  build-frame_of (call_error id code description details) = refl

  parse-stringified : (v : Json) → parse_message js (js.stringify v) ≡ read_frame v
  unfolding parse_message
  parse-stringified v = rw (parse_message, js.parse-stringify) refl

  read-frame_of :
      (message : OcppMessage)
      → read_frame (frame_of message) ≡ (if is_sendable message then some message else none)
  unfolding read_frame
  read-frame_of (call id action payload) = ground arith
  read-frame_of (call_result id payload) = refl
  read-frame_of (call_error id code description details) = refl

  -- To parse what was built gives the message back, with all its parts, if the protocol allows it, and
  -- nothing otherwise.
  pub parse-build :
      (message : OcppMessage)
      → parse_message js (build message) ≡ (if is_sendable message then some message else none)
  parse-build message = rw (build-frame_of, parse-stringified) (read-frame_of message)
