-- ===== src/Ocpp/Replies.antt =====
-- Every frame is answered as the protocol wants (`onFrame` of backend/src/ocpp/gateway.ts).
use Prim.Native.String.{String}
use text.Mathlib.Text.{◌==◌ as str_eq}
use text.Mathlib.TextPositions.{eq_refl}
use ev_charger_management_pl.Prelude.{
  ℕ, ◌≡◌, ◌∙◌, refl, Option, none, some, Bool, true, false, Option-cases, is_some, inl, inr, arith,
}
use ev_charger_management_pl.Prelude.Result.{Result, ok, err}
use ev_charger_management_pl.Prelude.Table.{ObjectIds}
use ev_charger_management_pl.Ocpp.Json.{Fields, Json, JsonLibrary}
use ev_charger_management_pl.Ocpp.Messages.{
  OcppMessage, call, call_result, call_error, is_unique_id, read_frame, parse_message,
  build_call_result, build_call_error,
}
use ev_charger_management_pl.Ocpp.Roundtrip.{is_sendable, build, parse-build}
use ev_charger_management_pl.Ocpp.Registry.{ChargerConnection}
use ev_charger_management_pl.Ocpp.Commands.{Calls}
use ev_charger_management_pl.Ocpp.Gateway.{Gateway, JsDate, HandlerError, refused, unexpected}
use ev_charger_management_pl.Ocpp.Frames.{
  handler_of, handlers, on_call, answer_call, on_message, on_frame,
}

read_frame-sendable :
    (frame : Json) (message : OcppMessage)
    → read_frame frame ≡ some message
    → is_sendable message ≡ true
unfolding read_frame
read_frame-sendable frame message h = ground arith

-- A reply under an id.
abbrev pub carries : String → Option OcppMessage → Bool
carries id (some (call_result other payload)) = str_eq other id
carries id (some (call_error other code description details)) = str_eq other id
carries id _ = false

-- Whether a message is a call of an action that the handlers inherit.
abbrev pub names_inherited :
    (String → Option (Result HandlerError Json)) → Option OcppMessage → Bool
names_inherited inherited (some (call id action payload)) = is_some (inherited action)
names_inherited inherited _ = false

module _ (js : JsonLibrary) where
  -- What the protocol wants to be sent back for a message: one reply under the id of a call, nothing
  -- for a reply, and an error under the id "0" for what is no message.
  abbrev pub is_answered : Option OcppMessage → Option js.Raw → Bool
  is_answered none (some raw) = carries "0" (parse_message js raw)
  is_answered (some (call id action payload)) (some raw) = carries id (parse_message js raw)
  is_answered (some (call_result id payload)) none = true
  is_answered (some (call_error id code description details)) none = true
  is_answered _ _ = false

  parse_sendable :
      (message : OcppMessage)
      → is_sendable message ≡ true
      → parse_message js (build js message) ≡ some message
  parse_sendable message fine = parse-build js message ∙ rw fine refl

  parsed_sendable :
      (raw : js.Raw) (message : OcppMessage)
      → parse_message js raw ≡ some message
      → is_sendable message ≡ true
  unfolding parse_message
  parsed_sendable raw message h = elim (Option-cases (js.parse raw)) [
    | inl broken ↦ absurd (cc (rw (broken, parse_message) at h))
    | inr (frame, parsed) ↦ read_frame-sendable frame message (rw (parsed, parse_message) at h)
  ]

module _ (js : JsonLibrary) (date : JsDate) (ids : ObjectIds) (now : ℕ)
    (connection : ChargerConnection) (inherited : String → Option (Result HandlerError Json)) where
  build_result-carries :
      (id : String) (payload : Fields)
      → is_unique_id id ≡ true
      → carries id (parse_message js (build_call_result js id payload)) ≡ true
  build_result-carries id payload fine =
      rw (parse_sendable js (call_result id payload) fine) (eq_refl id)

  build_error-carries :
      (id code description : String) (details : Fields)
      → is_unique_id id ≡ true
      → carries id (parse_message js (build_call_error js id code description details)) ≡ true
  build_error-carries id code description details fine =
      rw (parse_sendable js (call_error id code description details) fine) (eq_refl id)

  answer_call-carries :
      (id : String) (result : Result HandlerError Fields)
      → is_unique_id id ≡ true
      → carries id (parse_message js (answer_call js date ids now connection inherited id result))
        ≡ true
  answer_call-carries id (ok payload) fine = build_result-carries id payload fine
  answer_call-carries id (err (refused e)) fine = build_error-carries id _ _ _ fine
  answer_call-carries id (err unexpected) fine = build_error-carries id _ _ _ fine

  on_call-carries :
      (id action : String) (payload : Fields) (g : Gateway)
      → is_unique_id id ≡ true
      → is_some (inherited action) ≡ false
      → carries id
          (parse_message js (on_call js date ids now connection inherited id action payload g).0)
        ≡ true
  unfolding on_call
  on_call-carries id action payload g fine own =
      elim (Option-cases (handler_of action (handlers js date ids now connection inherited))) [
        | inl unknown ↦ elim (Option-cases (inherited action)) [
          | inl nowhere ↦ rw (unknown, nowhere, on_call) (build_error-carries id _ _ _ fine)
          | inr (result, there) ↦ absurd (cc (rw there at own))
        ]
        | inr (handler, known) ↦
            rw (known, on_call) (answer_call-carries id (handler payload g).0 fine)
      ]

  on_message-answered :
      (message : Option OcppMessage) (g : Gateway) (c : Calls)
      → (elim message [ none ↦ true | some m ↦ is_sendable m ]) ≡ true
      → names_inherited inherited message ≡ false
      → is_answered js message (on_message js date ids now connection inherited message g c).0
        ≡ true
  unfolding is_unique_id
  on_message-answered none g c fine own = build_error-carries "0" _ _ _ refl
  on_message-answered (some (call id action payload)) g c fine own =
      on_call-carries id action payload _ (ground (arith, fine)) own
  on_message-answered (some (call_result id payload)) g c fine own = refl
  on_message-answered (some (call_error id code description details)) g c fine own = refl

  -- Whatever a charger sends, but a call of an action that is named like a function of every object,
  -- what is sent back is what the protocol wants: exactly one reply, which the charger can parse, under
  -- the id of a call, also where the handler fails or there is none; nothing for a reply; and an error
  -- under the id "0" for what is no message.
  pub frame_answered :
      (raw : js.Raw) (g : Gateway) (c : Calls)
      → names_inherited inherited (parse_message js raw) ≡ false
      → is_answered js
          (parse_message js raw)
          (on_frame js date ids now connection inherited raw g c).0
        ≡ true
  unfolding on_frame
  frame_answered raw g c own = elim (Option-cases (parse_message js raw)) [
    | inl nothing ↦ rw (nothing, on_frame) (on_message-answered none g c refl refl)
    | inr (message, parsed) ↦
        rw (parsed, on_frame)
          (on_message-answered (some message) g c (parsed_sendable js raw message parsed)
            (rw parsed at own))
  ]
