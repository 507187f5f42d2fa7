-- ===== src/Session/Steps.antt =====
-- Every sequence of session creations and charger reports, as a step relation
-- (backend/src/services/sessionEvents.service.ts, backend/src/services/chargingSession.service.ts).
use ev_charger_management_pl.Prelude.{ℕ}
use ev_charger_management_pl.Prelude.Table.{ObjectIds}
use ev_charger_management_pl.Models.Session.{ChargingSession}
use ev_charger_management_pl.Store.{Store}
use ev_charger_management_pl.Session.Events.{
  StartTransactionInput, on_start_transaction, MeterValuesInput, on_meter_values,
  StopTransactionInput, on_stop_transaction,
}
use ev_charger_management_pl.Session.Starting.{create_session}
use ev_charger_management_pl.Session.Reports.{
  IsSound, create-IsSound, start-IsSound, reading-IsSound, stop-IsSound,
}

-- One operation on sessions: the insert of a start, or a report of a charger. The counter of
-- transaction ids may be anything, since other processes have their own.
pub data SessionStep (ids : ObjectIds) : Store → Store → Type 1 where
  created : (s : ChargingSession) (db : Store) → SessionStep ids db (create_session ids s db).1
  start_reported :
      (now : ℕ) (input : StartTransactionInput) (next : ℕ) (db : Store)
      → SessionStep ids db (on_start_transaction now input next db).1.1
  meter_reported :
      (now : ℕ) (input : MeterValuesInput) (db : Store)
      → SessionStep ids db (on_meter_values ids now input db).1
  stop_reported :
      (now : ℕ) (input : StopTransactionInput) (db : Store)
      → SessionStep ids db (on_stop_transaction now input db).1

pub data SessionSteps (ids : ObjectIds) (start : Store) : Store → Type 1 where
  none_yet : SessionSteps ids start start
  then_one :
      (db db' : Store)
      → SessionSteps ids start db
      → SessionStep ids db db'
      → SessionSteps ids start db'

SessionStep-IsSound :
    (ids : ObjectIds) (db db' : Store)
    → IsSound db.sessions
    → SessionStep ids db db'
    → IsSound db'.sessions
SessionStep-IsSound ids _ _ h (created s db) = create-IsSound ids s db h
SessionStep-IsSound ids _ _ h (start_reported now input next db) = start-IsSound now input next db h
SessionStep-IsSound ids _ _ h (meter_reported now input db) = reading-IsSound ids now input db h
SessionStep-IsSound ids _ _ h (stop_reported now input db) = stop-IsSound now input db h

-- Whatever sequence of insertions and charger reports leads from a store with one open session for
-- each connector and for each driver at most, the store that it leads to has at most one too.
pub SessionSteps-IsSound :
    (ids : ObjectIds) (start db : Store)
    → IsSound start.sessions
    → SessionSteps ids start db
    → IsSound db.sessions
SessionSteps-IsSound ids start _ h none_yet = h
SessionSteps-IsSound ids start _ h (then_one db db' before step) =
    SessionStep-IsSound ids db db' (SessionSteps-IsSound ids start db h before) step
