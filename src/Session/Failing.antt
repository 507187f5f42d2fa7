-- ===== src/Session/Failing.antt =====
-- Sessions that end without a StopTransaction: `failSessions` and its callers and
-- `sweepUnconfirmedSessions` of backend/src/services/sessionEvents.service.ts, with
-- `lastEvidenceOfCharging` of backend/src/utils/sessionEnd.ts.
use ev_charger_management_pl.Prelude.{
  ℕ, ◌-◌, min, max, Option, none, some, Bool, true, false, ◌&&◌, ◌==◌, ltb, get_or, or_else,
  if◌then◌else◌, [], ◌∷◌, length,
}
use ev_charger_management_pl.Prelude.Table.{Table, find_all, update_many}
use ev_charger_management_pl.Models.Session.{
  failed, is_open, is_initiating, StopReason, start_timeout, FailureReason, not_confirmed_in_time,
  ChargingSession, MeterReading,
}
use ev_charger_management_pl.Models.Charger.{
  Connector, ConnectorStatus, unavailable, preparing, charging, finishing,
}
use ev_charger_management_pl.Store.{Store}
use ev_charger_management_pl.Session.Events.{consumed_wh, save_session}

abbrev pub later : Option ℕ → ℕ → ℕ
later none at = at
later (some other) at = max other at

-- The time of the session's latest reading.
unfoldable pub latest_reading : ℕ → Table MeterReading → Option ℕ
latest_reading session_id [] = none
latest_reading session_id ((k, r) ∷ t) =
    let rest = latest_reading session_id t in
    if r.session_id == session_id then some (later rest r.meter_timestamp) else rest

-- From the latest reading and the time that the session started.
abbrev pub evidence : (now : ℕ) → (latest started_at : Option ℕ) → ℕ
evidence now latest started_at =
    let candidate = get_or (or_else latest started_at) now in
    min now (max (get_or started_at candidate) candidate)

unfoldable pub last_evidence_of_charging :
    (now session_id : ℕ) → ChargingSession → Table MeterReading → ℕ
last_evidence_of_charging now session_id s readings =
    evidence now (latest_reading session_id readings) s.started_at

abbrev pub broken_off :
    (ended_at : ℕ) → StopReason → FailureReason → ChargingSession → ChargingSession
broken_off ended_at stop_reason failure_reason s = record s {
  status = failed;
  ended_at = some ended_at;
  end_meter_wh = s.last_meter_wh;
  energy_consumed_wh = consumed_wh s.start_meter_wh s.last_meter_wh;
  stop_reason = some stop_reason;
  failure_reason = some failure_reason;
}

unfoldable pub fail_sessions :
    (now : ℕ) → StopReason → FailureReason → Table ChargingSession → Store → Store
fail_sessions now stop_reason failure_reason [] db = db
fail_sessions now stop_reason failure_reason ((k, s) ∷ open_ones) db =
    let ended_at = last_evidence_of_charging now k s db.readings in
    fail_sessions now stop_reason failure_reason open_ones
      (save_session k (broken_off ended_at stop_reason failure_reason s) db)

unfoldable pub fail_open_sessions_for_connector :
    (now connector_id : ℕ) → StopReason → FailureReason → Store → ℕ × Store
fail_open_sessions_for_connector now connector_id stop_reason failure_reason db =
    let open_ones =
      find_all (λ (s : ChargingSession). s.connector_id == connector_id && is_open s.status)
        db.sessions in
    (length open_ones, fail_sessions now stop_reason failure_reason open_ones db)

-- `IN_FLIGHT_CONNECTOR_STATUSES.includes(status)`
abbrev pub is_in_flight : ConnectorStatus → Bool
is_in_flight preparing = true
is_in_flight charging = true
is_in_flight finishing = true
is_in_flight _ = false

abbrev pub release : (charger_id : ℕ) → Table Connector → Table Connector
release charger_id connectors =
    update_many (λ (c : Connector). c.charger_id == charger_id && is_in_flight c.status)
      (λ (c : Connector). record c { status = unavailable }) connectors

abbrev pub release_connectors : (charger_id : ℕ) → Store → Store
release_connectors charger_id db = record db { connectors = release charger_id db.connectors }

unfoldable pub fail_open_sessions_for_charger :
    (now charger_id : ℕ) → StopReason → FailureReason → Store → ℕ × Store
fail_open_sessions_for_charger now charger_id stop_reason failure_reason db =
    let open_ones =
      find_all (λ (s : ChargingSession). s.charger_id == charger_id && is_open s.status)
        db.sessions in
    (
      length open_ones,
      release_connectors charger_id (fail_sessions now stop_reason failure_reason open_ones db),
    )

abbrev pub never_confirmed : (now : ℕ) → ChargingSession → ChargingSession
never_confirmed now s = record s {
  status = failed;
  ended_at = some now;
  stop_reason = some start_timeout;
  failure_reason = some not_confirmed_in_time;
}

unfoldable pub fail_stale : (now : ℕ) → Table ChargingSession → Store → Store
fail_stale now [] db = db
fail_stale now ((k, s) ∷ stale) db =
    fail_stale now stale (save_session k (never_confirmed now s) db)

-- `timeout_ms` is configured, from the environment.
unfoldable pub sweep_unconfirmed_sessions : (timeout_ms now : ℕ) → Store → ℕ × Store
sweep_unconfirmed_sessions timeout_ms now db =
    let stale =
      find_all
        (λ (s : ChargingSession). is_initiating s.status && ltb s.requested_at (now - timeout_ms))
        db.sessions in
    (length stale, fail_stale now stale db)
