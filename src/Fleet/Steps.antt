-- ===== src/Fleet/Steps.antt =====
-- Every sequence of operations on chargers and plugs, as a step relation
-- (backend/src/services/charger.service.ts, backend/src/services/connector.service.ts).
use ev_charger_management_pl.Prelude.{ℕ}
use ev_charger_management_pl.Prelude.Table.{ObjectIds}
use ev_charger_management_pl.Access.{AuthUser}
use ev_charger_management_pl.Models.Charger.{ChargerStatus, ConnectorStatus}
use ev_charger_management_pl.Store.{Store}
use ev_charger_management_pl.Fleet.Chargers.{
  CreateChargerInput, create_charger, UpdateChargerInput, update_charger, set_charger_status,
}
use ev_charger_management_pl.Fleet.Connectors.{
  CreateConnectorInput, create_connector, UpdateConnectorInput, update_connector,
  set_connector_status,
}
use ev_charger_management_pl.Fleet.Fitting.{IsFitted}
use ev_charger_management_pl.Fleet.Upkeep.{
  create_charger-IsFitted, update_charger-IsFitted, set_charger_status-IsFitted,
  create_connector-IsFitted, update_connector-IsFitted, set_connector_status-IsFitted,
}

-- One call of a service, whole: no other call comes between its reads and its write.
pub data FleetStep (ids : ObjectIds) : Store → Store → Type 1 where
  charger_created :
      (actor : AuthUser) (input : CreateChargerInput) (db : Store)
      → FleetStep ids db (create_charger ids actor input db).1
  charger_updated :
      (actor : AuthUser) (k : ℕ) (input : UpdateChargerInput) (db : Store)
      → FleetStep ids db (update_charger actor k input db).1
  charger_status_set :
      (actor : AuthUser) (k : ℕ) (status : ChargerStatus) (db : Store)
      → FleetStep ids db (set_charger_status actor k status db).1
  connector_created :
      (actor : AuthUser) (charger_id : ℕ) (input : CreateConnectorInput) (db : Store)
      → FleetStep ids db (create_connector ids actor charger_id input db).1
  connector_updated :
      (actor : AuthUser) (charger_id k : ℕ) (input : UpdateConnectorInput) (db : Store)
      → FleetStep ids db (update_connector actor charger_id k input db).1
  connector_status_set :
      (actor : AuthUser) (charger_id k : ℕ) (status : ConnectorStatus) (db : Store)
      → FleetStep ids db (set_connector_status actor charger_id k status db).1

pub data FleetSteps (ids : ObjectIds) (start : Store) : Store → Type 1 where
  none_yet : FleetSteps ids start start
  then_one :
      (db db' : Store) → FleetSteps ids start db → FleetStep ids db db' → FleetSteps ids start db'

FleetStep-IsFitted :
    (ids : ObjectIds) (db db' : Store) → IsFitted db → FleetStep ids db db' → IsFitted db'
FleetStep-IsFitted ids _ _ h (charger_created actor input db) =
    create_charger-IsFitted ids actor input db h
FleetStep-IsFitted ids _ _ h (charger_updated actor k input db) =
    update_charger-IsFitted actor k input db h
FleetStep-IsFitted ids _ _ h (charger_status_set actor k status db) =
    set_charger_status-IsFitted actor k status db h
FleetStep-IsFitted ids _ _ h (connector_created actor charger_id input db) =
    create_connector-IsFitted ids actor charger_id input db h
FleetStep-IsFitted ids _ _ h (connector_updated actor charger_id k input db) =
    update_connector-IsFitted actor charger_id k input db h
FleetStep-IsFitted ids _ _ h (connector_status_set actor charger_id k status db) =
    set_connector_status-IsFitted actor charger_id k status db h

-- Whatever sequence of whole operations on chargers and plugs, by whomever, leads from a store in which
-- every plug belongs to a stored charger and no AC charger has a DC-only plug, the store that it leads
-- to is of that kind too.
pub FleetSteps-IsFitted :
    (ids : ObjectIds) (start db : Store) → IsFitted start → FleetSteps ids start db → IsFitted db
FleetSteps-IsFitted ids start _ h none_yet = h
FleetSteps-IsFitted ids start _ h (then_one db db' before step) =
    FleetStep-IsFitted ids db db' (FleetSteps-IsFitted ids start db h before) step
