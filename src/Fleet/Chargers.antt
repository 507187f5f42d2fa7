-- ===== src/Fleet/Chargers.antt =====
-- `createCharger`, `updateCharger` and `setChargerStatus` of backend/src/services/charger.service.ts, and
-- which plugs fit a charger (backend/src/services/connector.service.ts). The station of a new charger is
-- verified by the service of stations; tokens and the fields that are only displayed are left out. A code
-- that an input names is not empty, as its validation demands.
use ev_charger_management_pl.Prelude.{
  ℕ, Option, none, some, Bool, true, false, not, ◌&&◌, ◌==◌, is_some, get_or, if◌then◌else◌,
}
use ev_charger_management_pl.Prelude.Result.{Result, ok, err, Action}
use ev_charger_management_pl.Prelude.Table.{
  Table, ObjectIds, find_by_id, find_one, save, create, any_other,
}
use ev_charger_management_pl.Access.{
  AuthUser, is_super_admin, Owned, plain, satisfies, apply_company_scope,
}
use ev_charger_management_pl.Models.Charger.{
  ChargerType, ac, dc, ConnectorType, ccs2, chademo, ChargerStatus, operative, Charger, Connector,
}
use ev_charger_management_pl.Store.{Store}

pub data FleetError : Type 0 where
  no_company charger_not_found other_company connector_not_found : FleetError
  ocpp_id_taken charger_code_taken connector_number_taken dc_only_plug : FleetError

instance abbrev pub charger_owned : Owned Charger
charger_owned = record { user_of = λ c. c.created_by; company_of = λ c. some c.company_id }

-- `DC_ONLY_CONNECTOR_TYPES.includes(type)`
abbrev pub is_dc_only : ConnectorType → Bool
is_dc_only ccs2 = true
is_dc_only chademo = true
is_dc_only _ = false

abbrev pub is_ac : ChargerType → Bool
is_ac ac = true
is_ac dc = false

-- `assertPlugFitsCharger`
abbrev pub plug_fits : ChargerType → ConnectorType → Bool
plug_fits charger_type connector_type = not (is_ac charger_type && is_dc_only connector_type)

abbrev not_found_or_forbidden : AuthUser → FleetError
not_found_or_forbidden actor =
    if is_super_admin actor.role then charger_not_found else other_company

-- `assertChargerInScope`
unfoldable pub charger_in_scope : AuthUser → ℕ → Table Charger → Result FleetError Charger
charger_in_scope actor k t = elim (apply_company_scope actor (plain (λ (x : Charger). true))) [
  | err e ↦ err no_company
  | ok scope ↦ elim (find_by_id k t) [
    | none ↦ err (not_found_or_forbidden actor)
    | some x ↦ if satisfies scope x then ok x else err (not_found_or_forbidden actor)
  ]
]

pub record CreateChargerInput : Type 0 where
  pub station_id : ℕ
  pub company_id : ℕ
  pub charger_code : ℕ
  pub ocpp_id : ℕ
  pub power_kw : ℕ
  pub charger_type : ChargerType

-- The station and its company are those of the verified station.
unfoldable pub create_charger :
    ObjectIds → AuthUser → CreateChargerInput → Action Store FleetError Charger
create_charger ids actor input db =
    if is_some (find_one (λ (c : Charger). c.ocpp_id == input.ocpp_id) db.chargers)
    then (err ocpp_id_taken, db)
    else if is_some (
        find_one
          (λ (c : Charger).
            c.station_id == input.station_id && c.charger_code == input.charger_code)
          db.chargers)
    then (err charger_code_taken, db)
    else let charger : Charger = record {
      station_id = input.station_id;
      company_id = input.company_id;
      created_by = actor.id;
      charger_code = input.charger_code;
      ocpp_id = input.ocpp_id;
      power_kw = input.power_kw;
      charger_type = input.charger_type;
      status = ChargerStatus.available;
      is_online = false;
      last_heartbeat_at = none;
      hardware_status = operative;
      fault_code = none;
      fault_reported_at = none;
    } in
      (
        ok charger,
        record db { chargers = create (ids.fresh Charger db.chargers) charger db.chargers },
      )

pub record UpdateChargerInput : Type 0 where
  pub charger_code : Option ℕ
  pub ocpp_id : Option ℕ
  pub power_kw : Option ℕ
  pub charger_type : Option ChargerType

abbrev pub updated_charger : UpdateChargerInput → Charger → Charger
updated_charger input c = record c {
  charger_code = get_or input.charger_code c.charger_code;
  ocpp_id = get_or input.ocpp_id c.ocpp_id;
  power_kw = get_or input.power_kw c.power_kw;
  charger_type = get_or input.charger_type c.charger_type;
}

-- Would the input change the value, and does another document have it?
abbrev ocpp_id_clash : Option ℕ → ℕ → Charger → Table Charger → Bool
ocpp_id_clash none k c t = false
ocpp_id_clash (some o) k c t =
    not (o == c.ocpp_id) && any_other k (λ (x : Charger). x.ocpp_id == o) t

abbrev code_clash : Option ℕ → ℕ → Charger → Table Charger → Bool
code_clash none k c t = false
code_clash (some code) k c t =
    not (code == c.charger_code)
    && any_other k (λ (x : Charger). x.station_id == c.station_id && x.charger_code == code) t

abbrev becomes_ac : Option ChargerType → Charger → Bool
becomes_ac none c = false
becomes_ac (some charger_type) c = is_ac charger_type && not (is_ac c.charger_type)

abbrev pub dc_plug_of : ℕ → Connector → Bool
dc_plug_of charger_id c = c.charger_id == charger_id && is_dc_only c.connector_type

unfoldable pub checked_update : ℕ → UpdateChargerInput → Charger → Store → Result FleetError Charger
checked_update k input c db =
    if ocpp_id_clash input.ocpp_id k c db.chargers
    then err ocpp_id_taken
    else if code_clash input.charger_code k c db.chargers
    then err charger_code_taken
    else if becomes_ac input.charger_type c && is_some (find_one (dc_plug_of k) db.connectors)
    then err dc_only_plug
    else ok (updated_charger input c)

-- A change of one charger: read in scope, changed and saved.
abbrev pub on_charger :
    AuthUser → ℕ → (Charger → Store → Result FleetError Charger) → Action Store FleetError Charger
on_charger actor k change db = elim (charger_in_scope actor k db.chargers) [
  | err e ↦ (err e, db)
  | ok c ↦ elim (change c db) [
    | err e ↦ (err e, db)
    | ok c' ↦ (ok c', record db { chargers = save k c' db.chargers })
  ]
]

unfoldable pub update_charger : AuthUser → ℕ → UpdateChargerInput → Action Store FleetError Charger
update_charger actor k input = on_charger actor k (checked_update k input)

unfoldable pub set_charger_status : AuthUser → ℕ → ChargerStatus → Action Store FleetError Charger
set_charger_status actor k status = on_charger actor k (λ c db. ok (record c { status = status }))
