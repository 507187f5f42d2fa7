-- ===== src/Fleet/Connectors.antt =====
-- `createConnector`, `updateConnector` and `setConnectorStatus` of
-- backend/src/services/connector.service.ts, each of which first verifies the charger. The power of a plug
-- is left out. A number that an input names is not zero, as its validation demands.
use ev_charger_management_pl.Prelude.{
  ℕ, Option, none, some, Bool, true, false, not, ◌&&◌, ◌==◌, is_some, get_or, if◌then◌else◌,
}
use ev_charger_management_pl.Prelude.Result.{Result, ok, err, Action}
use ev_charger_management_pl.Prelude.Table.{
  Table, ObjectIds, find_by_id, find_one, save, create, any_other,
}
use ev_charger_management_pl.Access.{AuthUser}
use ev_charger_management_pl.Models.Charger.{
  ChargerType, ConnectorType, ConnectorStatus, Charger, Connector,
}
use ev_charger_management_pl.Store.{Store}
use ev_charger_management_pl.Fleet.Chargers.{
  FleetError, charger_in_scope, connector_not_found, connector_number_taken, dc_only_plug,
  plug_fits,
}

pub record CreateConnectorInput : Type 0 where
  pub connector_number : ℕ
  pub connector_type : ConnectorType

abbrev pub numbered : (charger_id number : ℕ) → Connector → Bool
numbered charger_id number c = c.charger_id == charger_id && c.connector_number == number

unfoldable pub create_connector :
    ObjectIds
    → AuthUser
    → (charger_id : ℕ) → CreateConnectorInput
    → Action Store FleetError Connector
create_connector ids actor charger_id input db =
    elim (charger_in_scope actor charger_id db.chargers) [
      | err e ↦ (err e, db)
      | ok charger ↦
          if is_some (find_one (numbered charger_id input.connector_number) db.connectors)
          then (err connector_number_taken, db)
          else if not (plug_fits charger.charger_type input.connector_type)
          then (err dc_only_plug, db)
          else let connector : Connector = record {
            charger_id = charger_id;
            connector_number = input.connector_number;
            connector_type = input.connector_type;
            status = ConnectorStatus.available;
            error_code = none;
          } in
            (
              ok connector,
              record db {
                connectors = create (ids.fresh Connector db.connectors) connector db.connectors;
              },
            )
    ]

pub record UpdateConnectorInput : Type 0 where
  pub connector_number : Option ℕ
  pub connector_type : Option ConnectorType
  pub error_code : Option (Option ℕ)

abbrev pub updated_connector : UpdateConnectorInput → Connector → Connector
updated_connector input c = record c {
  connector_number = get_or input.connector_number c.connector_number;
  connector_type = get_or input.connector_type c.connector_type;
  error_code = get_or input.error_code c.error_code;
}

abbrev number_clash : Option ℕ → ℕ → Connector → Table Connector → Bool
number_clash none k c t = false
number_clash (some number) k c t =
    not (number == c.connector_number) && any_other k (numbered c.charger_id number) t

abbrev still_fits : ChargerType → Option ConnectorType → Bool
still_fits charger_type none = true
still_fits charger_type (some connector_type) = plug_fits charger_type connector_type

unfoldable pub checked_connector :
    ℕ → UpdateConnectorInput → Charger → Connector → Store → Result FleetError Connector
checked_connector k input charger c db =
    if not (still_fits charger.charger_type input.connector_type)
    then err dc_only_plug
    else if number_clash input.connector_number k c db.connectors
    then err connector_number_taken
    else ok (updated_connector input c)

-- `findOne({ _id, chargerId })`
abbrev pub connector_of : (charger_id k : ℕ) → Table Connector → Option Connector
connector_of charger_id k t = elim (find_by_id k t) [
  | none ↦ none
  | some c ↦ if c.charger_id == charger_id then some c else none
]

abbrev pub on_connector :
    AuthUser
    → (charger_id k : ℕ) → (Charger → Connector → Store → Result FleetError Connector)
    → Action Store FleetError Connector
on_connector actor charger_id k change db = elim (charger_in_scope actor charger_id db.chargers) [
  | err e ↦ (err e, db)
  | ok charger ↦ elim (connector_of charger_id k db.connectors) [
    | none ↦ (err connector_not_found, db)
    | some c ↦ elim (change charger c db) [
      | err e ↦ (err e, db)
      | ok c' ↦ (ok c', record db { connectors = save k c' db.connectors })
    ]
  ]
]

unfoldable pub update_connector :
    AuthUser → (charger_id k : ℕ) → UpdateConnectorInput → Action Store FleetError Connector
update_connector actor charger_id k input =
    on_connector actor charger_id k (checked_connector k input)

unfoldable pub set_connector_status :
    AuthUser → (charger_id k : ℕ) → ConnectorStatus → Action Store FleetError Connector
set_connector_status actor charger_id k status =
    on_connector actor charger_id k (λ charger c db. ok (record c { status = status }))
