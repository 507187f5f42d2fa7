-- ===== src/Fleet/Upkeep.antt =====
-- Each operation on chargers and plugs keeps the plugs fitting (backend/src/services/charger.service.ts,
-- backend/src/services/connector.service.ts).
use ev_charger_management_pl.Prelude.{
  ℕ, ◌≡◌, some, ◌&&◌, ◌==◌, is_some, Bool-cases, Option-cases, inl, inr, arith,
}
use ev_charger_management_pl.Prelude.Result.{Result-cases}
use ev_charger_management_pl.Prelude.Table.{
  Table, ObjectIds, find_by_id, find_one, find_one_complete,
}
use ev_charger_management_pl.Access.{AuthUser}
use ev_charger_management_pl.Models.Charger.{ChargerStatus, ConnectorStatus, Charger, Connector}
use ev_charger_management_pl.Store.{Store}
use ev_charger_management_pl.Fleet.Chargers.{
  charger_owned, plug_fits, charger_in_scope, CreateChargerInput, create_charger,
  UpdateChargerInput, dc_plug_of, checked_update, on_charger, update_charger, set_charger_status,
}
use ev_charger_management_pl.Fleet.Connectors.{
  numbered, CreateConnectorInput, create_connector, UpdateConnectorInput, checked_connector,
  connector_of, on_connector, update_connector, set_connector_status,
}
use ev_charger_management_pl.Fleet.Fitting.{
  IsFitted, charger_found, put_connector-IsFitted, add_connector-IsFitted, add_charger-IsFitted,
  put_charger-IsFitted,
}

pub update_charger-IsFitted :
    (actor : AuthUser) (k : ℕ) (input : UpdateChargerInput) (db : Store)
    → IsFitted db
    → IsFitted (update_charger actor k input db).1
unfolding update_charger checked_update
update_charger-IsFitted actor k input db h =
    elim (Result-cases (charger_in_scope actor k db.chargers)) [
      | inl (e, out) ↦ rw (out, update_charger, on_charger) h
      | inr (c, within) ↦ elim (Result-cases (checked_update k input c db)) [
        | inl (e, bad) ↦ rw (within, bad, update_charger, on_charger) h
        | inr (c', good) ↦
            rw (within, good, update_charger, on_charger)
              (put_charger-IsFitted k c c' db (charger_found actor k db.chargers c within)
                (λ j p at. ground (arith, good, find_one_complete (dc_plug_of k) db.connectors j p))
                h)
      ]
    ]

pub set_charger_status-IsFitted :
    (actor : AuthUser) (k : ℕ) (status : ChargerStatus) (db : Store)
    → IsFitted db
    → IsFitted (set_charger_status actor k status db).1
unfolding set_charger_status
set_charger_status-IsFitted actor k status db h =
    elim (Result-cases (charger_in_scope actor k db.chargers)) [
      | inl (e, out) ↦ rw (out, set_charger_status, on_charger) h
      | inr (c, within) ↦
          rw (within, set_charger_status, on_charger)
            (put_charger-IsFitted k c (record c { status = status }) db
              (charger_found actor k db.chargers c within) (λ j p at. ground arith) h)
    ]

pub create_charger-IsFitted :
    (ids : ObjectIds) (actor : AuthUser) (input : CreateChargerInput) (db : Store)
    → IsFitted db
    → IsFitted (create_charger ids actor input db).1
unfolding create_charger
create_charger-IsFitted ids actor input db h =
    elim (Bool-cases
      (is_some (find_one (λ (c : Charger). c.ocpp_id == input.ocpp_id) db.chargers))) [
        | inl taken ↦ rw (taken, create_charger) h
        | inr free ↦
            elim (Bool-cases (
              is_some (
                find_one
                  (λ (c : Charger).
                    c.station_id == input.station_id && c.charger_code == input.charger_code)
                  db.chargers))) [
                    | inl used ↦ rw (free, used, create_charger) h
                    | inr unused ↦
                        rw (free, unused, create_charger)
                          (add_charger-IsFitted (ids.fresh Charger db.chargers) _ db
                            (ids.unused Charger db.chargers) h)
                  ]
      ]

pub create_connector-IsFitted :
    (ids : ObjectIds) (actor : AuthUser) (charger_id : ℕ) (input : CreateConnectorInput)
    (db : Store)
    → IsFitted db
    → IsFitted (create_connector ids actor charger_id input db).1
unfolding create_connector
create_connector-IsFitted ids actor charger_id input db h =
    elim (Result-cases (charger_in_scope actor charger_id db.chargers)) [
      | inl (e, out) ↦ rw (out, create_connector) h
      | inr (charger, within) ↦
          let stored = charger_found actor charger_id db.chargers charger within in
          elim (Bool-cases
            (is_some (find_one (numbered charger_id input.connector_number) db.connectors))) [
              | inl taken ↦ rw (within, taken, create_connector) h
              | inr free ↦ elim (Bool-cases (plug_fits charger.charger_type input.connector_type)) [
                | inr wrong ↦ rw (within, free, wrong, create_connector) h
                | inl right ↦
                    rw (within, free, right, create_connector)
                      (add_connector-IsFitted (ids.fresh Connector db.connectors) _ db
                        (ground (arith, stored, right)) h)
              ]
            ]
    ]

connector_of_lem :
    (charger_id k : ℕ) (t : Table Connector) (c : Connector)
    → connector_of charger_id k t ≡ some c
    → (find_by_id k t ≡ some c) × (c.charger_id ≡ charger_id)
connector_of_lem charger_id k t c h = ground (arith)

pub update_connector-IsFitted :
    (actor : AuthUser) (charger_id k : ℕ) (input : UpdateConnectorInput) (db : Store)
    → IsFitted db
    → IsFitted (update_connector actor charger_id k input db).1
unfolding update_connector checked_connector
update_connector-IsFitted actor charger_id k input db h =
    elim (Result-cases (charger_in_scope actor charger_id db.chargers)) [
      | inl (e, out) ↦ rw (out, update_connector, on_connector) h
      | inr (charger, within) ↦ elim (Option-cases (connector_of charger_id k db.connectors)) [
        | inl gone ↦ rw (within, gone, update_connector, on_connector) h
        | inr (c, there) ↦ elim (Result-cases (checked_connector k input charger c db)) [
          | inl (e, bad) ↦ rw (within, there, bad, update_connector, on_connector) h
          | inr (c', good) ↦
              let (stored, own) = connector_of_lem charger_id k db.connectors c there in
              rw (within, there, good, update_connector, on_connector)
                (put_connector-IsFitted k c' db
                  (ground (
                    arith,
                    good,
                    own,
                    h.fits k c stored,
                    charger_found actor charger_id db.chargers charger within,
                  ))
                  h)
        ]
      ]
    ]

pub set_connector_status-IsFitted :
    (actor : AuthUser) (charger_id k : ℕ) (status : ConnectorStatus) (db : Store)
    → IsFitted db
    → IsFitted (set_connector_status actor charger_id k status db).1
unfolding set_connector_status
set_connector_status-IsFitted actor charger_id k status db h =
    elim (Result-cases (charger_in_scope actor charger_id db.chargers)) [
      | inl (e, out) ↦ rw (out, set_connector_status, on_connector) h
      | inr (charger, within) ↦ elim (Option-cases (connector_of charger_id k db.connectors)) [
        | inl gone ↦ rw (within, gone, set_connector_status, on_connector) h
        | inr (c, there) ↦
            rw (within, there, set_connector_status, on_connector)
              (put_connector-IsFitted k (record c { status = status }) db
                (h.fits k c (connector_of_lem charger_id k db.connectors c there).0) h)
      ]
    ]
