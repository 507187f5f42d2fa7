-- ===== src/Session/Releasing.antt =====
-- What it leaves when the sessions of a charger or of a connector are failed (`failSessions` and its
-- callers in backend/src/services/sessionEvents.service.ts).
use ev_charger_management_pl.Prelude.{ℕ, ◌≡◌, ◌∙◌, refl, ap, ◌&&◌, ◌==◌, if◌then◌else◌, [], ◌∷◌}
use mathlib.Core.Option
use ev_charger_management_pl.Prelude.Table.{Table, find_by_id, find_by_id-update_many, IsTable}
use ev_charger_management_pl.Prelude.Each.{save_each, save_each-find_all}
use ev_charger_management_pl.Models.Charger.{Connector, unavailable}
use ev_charger_management_pl.Models.Session.{
  StopReason, FailureReason, is_open, ChargingSession, MeterReading, compute_amount,
}
use ev_charger_management_pl.Store.{Store}
use ev_charger_management_pl.Session.Failing.{
  broken_off, last_evidence_of_charging, fail_sessions, fail_open_sessions_for_connector,
  is_in_flight, fail_open_sessions_for_charger,
}

module _ (now : ℕ) (stop_reason : StopReason) (failure_reason : FailureReason) where
  -- A session that is failed: it ends when it was last seen charging, and is billed for that.
  abbrev pub failed_at_last_evidence :
      Table MeterReading → (id : ℕ) → ChargingSession → ChargingSession
  failed_at_last_evidence readings id s =
      compute_amount
        (broken_off (last_evidence_of_charging now id s readings) stop_reason failure_reason s)

  fail_sessions_lem :
      (open_ones : Table ChargingSession) (db : Store)
      → fail_sessions now stop_reason failure_reason open_ones db ≡ record db {
        sessions = save_each (failed_at_last_evidence db.readings) open_ones db.sessions;
      }
  unfolding fail_sessions save_each
  fail_sessions_lem [] db = refl
  fail_sessions_lem ((k, s) ∷ open_ones) db = fail_sessions_lem open_ones _

  -- The open sessions of the charger are failed, and no other session is touched.
  pub fail_open_sessions_for_charger-sessions :
      (charger_id j : ℕ) (db : Store)
      → IsTable db.sessions
      → find_by_id j
          (fail_open_sessions_for_charger now charger_id stop_reason failure_reason db).1.sessions
        ≡ Option.map
            (λ s.
              if s.charger_id == charger_id && is_open s.status
              then failed_at_last_evidence db.readings j s
              else s)
            (find_by_id j db.sessions)
  unfolding fail_open_sessions_for_charger
  fail_open_sessions_for_charger-sessions charger_id j db h =
      ap (λ (x : Store). find_by_id j x.sessions) (fail_sessions_lem _ db)
      ∙ save_each-find_all (failed_at_last_evidence db.readings)
          (λ s. s.charger_id == charger_id && is_open s.status) j db.sessions h

  -- The plugs that were in use are released, and no other plug is touched.
  pub fail_open_sessions_for_charger-connectors :
      (charger_id j : ℕ) (db : Store)
      → find_by_id j
          (fail_open_sessions_for_charger now charger_id stop_reason failure_reason db).1.connectors
        ≡ Option.map
            (λ (c : Connector).
              if c.charger_id == charger_id && is_in_flight c.status
              then record c { status = unavailable }
              else c)
            (find_by_id j db.connectors)
  unfolding fail_open_sessions_for_charger
  fail_open_sessions_for_charger-connectors charger_id j db =
      rw fail_sessions_lem (find_by_id-update_many _ _ j db.connectors)

  pub fail_open_sessions_for_charger-chargers :
      (charger_id : ℕ) (db : Store)
      → (fail_open_sessions_for_charger now charger_id stop_reason failure_reason db).1.chargers
        ≡ db.chargers
  unfolding fail_open_sessions_for_charger
  fail_open_sessions_for_charger-chargers charger_id db = rw fail_sessions_lem refl

  -- The open sessions of the connector are failed, and no other session is touched.
  pub fail_open_sessions_for_connector-sessions :
      (connector_id j : ℕ) (db : Store)
      → IsTable db.sessions
      → find_by_id j
          (fail_open_sessions_for_connector now connector_id stop_reason failure_reason
            db).1.sessions
        ≡ Option.map
            (λ s.
              if s.connector_id == connector_id && is_open s.status
              then failed_at_last_evidence db.readings j s
              else s)
            (find_by_id j db.sessions)
  unfolding fail_open_sessions_for_connector
  fail_open_sessions_for_connector-sessions connector_id j db h =
      ap (λ (x : Store). find_by_id j x.sessions) (fail_sessions_lem _ db)
      ∙ save_each-find_all (failed_at_last_evidence db.readings)
          (λ s. s.connector_id == connector_id && is_open s.status) j db.sessions h
