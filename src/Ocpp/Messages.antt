-- ===== src/Ocpp/Messages.antt =====
-- The envelope of OCPP-J: backend/src/ocpp/messages.ts. A frame is an array that starts with the kind
-- of message and the id that pairs a reply with its call.
use Prim.Native.String.{String, count, [], ◌∷◌}
use Prim.Native.Char.{code}
use ev_charger_management_pl.Prelude.{
  ℕ, ◌+◌, Option, none, some, Bool, not, ◌||◌, ◌==◌, ltb, if◌then◌else◌,
}
use ev_charger_management_pl.Ocpp.Json.{
  Json, number, natural, string, array, object, Items, no_items, item, ◌⊳◌, item_at, Fields,
  no_fields, JsonLibrary,
}

pub data OcppMessage : Type 0 where
  call : (unique_id action : String) (payload : Fields) → OcppMessage
  call_result : (unique_id : String) (payload : Fields) → OcppMessage
  call_error :
      (unique_id error_code error_description : String) (error_details : Fields) → OcppMessage

-- `OcppErrorCode`
pub data OcppErrorCode : Type 0 where
  not_supported protocol_error formation_violation property_constraint_violation internal_error
        security_error :
      OcppErrorCode

abbrev pub error_code_text : OcppErrorCode → String
error_code_text not_supported = "NotSupported"
error_code_text protocol_error = "ProtocolError"
error_code_text formation_violation = "FormationViolation"
error_code_text property_constraint_violation = "PropertyConstraintViolation"
error_code_text internal_error = "InternalError"
error_code_text security_error = "SecurityError"

-- The `.length` of a text: a character past the basic plane takes two units.
unfoldable pub utf16_length : String → ℕ
utf16_length [] = 0
utf16_length (c ∷ text) = (if ltb 65_535 (code c) then 2 else 1) + utf16_length text

unfoldable pub is_unique_id : String → Bool
unfolding utf16_length
is_unique_id id = not (utf16_length id == 0 || ltb 64 (utf16_length id))

abbrev text_or : String → Option Json → String
text_or default (some (string text)) = text
text_or default _ = default

abbrev fields_or_none : Option Json → Fields
fields_or_none (some (object fields)) = fields
fields_or_none _ = no_fields

-- The part of a frame after the kind and the id: `action` and `payload`.
abbrev parse_call : String → Items → Option OcppMessage
parse_call id (item (string action) (item (object payload) rest)) =
    if count action == 0 then none else some (call id action payload)
parse_call id _ = none

abbrev parse_call_result : String → Items → Option OcppMessage
parse_call_result id (item (object payload) rest) = some (call_result id payload)
parse_call_result id _ = none

abbrev parse_call_error : String → Items → Option OcppMessage
parse_call_error id rest = some (
    call_error id (text_or (error_code_text internal_error) (item_at 0 rest))
      (text_or "" (item_at 1 rest)) (fields_or_none (item_at 2 rest)))

abbrev parse_kind : (kind : ℕ) → String → Items → Option OcppMessage
parse_kind kind id rest =
    if kind == 2
    then parse_call id rest
    else if kind == 3
    then parse_call_result id rest
    else if kind == 4
    then parse_call_error id rest
    else none

-- A frame has three elements at least, and its id is a text of 1 to 64 characters.
unfoldable pub read_frame : Json → Option OcppMessage
read_frame (array (item (number (natural kind)) (item (string id) (item v rest)))) =
    if is_unique_id id then parse_kind kind id (item v rest) else none
read_frame _ = none

abbrev pub frame_of : OcppMessage → Json
frame_of (call id action payload) =
    array (number (natural 2) ⊳ string id ⊳ string action ⊳ object payload ⊳ no_items)
frame_of (call_result id payload) =
    array (number (natural 3) ⊳ string id ⊳ object payload ⊳ no_items)
frame_of (call_error id code description details) =
    array (
      number (natural 4) ⊳ string id ⊳ string code ⊳ string description ⊳ object details ⊳ no_items)

module _ (js : JsonLibrary) where
  unfoldable pub parse_message : js.Raw → Option OcppMessage
  parse_message raw = elim (js.parse raw) [ none ↦ none | some frame ↦ read_frame frame ]

  unfoldable pub build_call : (unique_id action : String) → Fields → js.Raw
  build_call id action payload = js.stringify (frame_of (call id action payload))

  unfoldable pub build_call_result : (unique_id : String) → Fields → js.Raw
  build_call_result id payload = js.stringify (frame_of (call_result id payload))

  unfoldable pub build_call_error : (unique_id code description : String) → Fields → js.Raw
  build_call_error id code description details =
      js.stringify (frame_of (call_error id code description details))
