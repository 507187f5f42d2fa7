-- ===== src/Session/Events.antt =====
-- What chargers report of a session: `authorizeIdTag`, `onStartTransaction`, `onMeterValues` and
-- `onStopTransaction` of backend/src/services/sessionEvents.service.ts. Log lines, pushes to browsers
-- and notifications are left out, and the settlement that a stop sets off is a call of its own
-- (Payment/Settlement.antt). A time is what the charger sent, if that can be parsed. An energy is a
-- number here, where the source also refuses one that is not finite, and the way to move the counter
-- of transaction ids is always at hand, as it is for the only caller.
use ev_charger_management_pl.Prelude.{
  ℕ, ◌+◌, max, Option, none, some, Bool, false, not, ◌&&◌, ◌||◌, ◌==◌, ltb, is_some, is_ref, get_or,
  or_else, if◌then◌else◌, [], ◌∷◌,
}
use ev_charger_management_pl.Prelude.Int.{ℤ, pos, leb_ℤ, ltb_ℤ, pos_part, sub_clamped}
use ev_charger_management_pl.Prelude.Result.{Result, ok, err}
use ev_charger_management_pl.Prelude.Table.{Table, ObjectIds, find_one, save, create}
use ev_charger_management_pl.Models.Session.{
  SessionStatus, active, completed, is_open, is_initiating, is_charging, is_stopping, remote, local,
  ChargingSession, MeterReading, compute_amount,
}
use ev_charger_management_pl.Store.{Store}
use ev_charger_management_pl.Payment.Arrears.{assess_arrears}

pub data SessionError : Type 0 where
  duplicate_key : SessionError

-- `session.save()`, with the hook that runs before it.
abbrev pub save_session : ℕ → ChargingSession → Store → Store
save_session k s db = record db { sessions = save k (compute_amount s) db.sessions }

-- Never negative; nothing is known to be delivered while one of the readings is missing.
unfoldable pub consumed_wh : Option ℤ → Option ℤ → ℕ
consumed_wh none _ = 0
consumed_wh (some start_wh) none = 0
consumed_wh (some start_wh) (some end_wh) = sub_clamped end_wh start_wh

abbrev pub parse_charger_time : (now : ℕ) → Option ℕ → ℕ
parse_charger_time now value = get_or value now

pub data AuthorizeStatus : Type 0 where
  accepted invalid blocked : AuthorizeStatus

unfoldable pub authorize_id_tag : (now id_tag : ℕ) → Store → AuthorizeStatus
authorize_id_tag now id_tag db =
    elim (find_one (λ (s : ChargingSession). s.id_tag == id_tag && is_open s.status) db.sessions) [
      | none ↦ invalid
      | some row ↦ if (assess_arrears now row.1.user_id db).blocked then blocked else accepted
    ]

-- The counter of transaction ids is the last one given out.
abbrev pub seed_transaction_id : (highest_issued next : ℕ) → ℕ
seed_transaction_id highest_issued next = if ltb next highest_issued then highest_issued else next

-- `findOne({ transactionId: { $ne: null } }).sort({ transactionId: -1 })`
unfoldable pub highest_transaction_id : Table ChargingSession → ℕ
highest_transaction_id [] = 0
highest_transaction_id ((k, s) ∷ t) = max (get_or s.transaction_id 0) (highest_transaction_id t)

pub record StartTransactionInput : Type 0 where
  pub charger_id : ℕ
  pub connector_number : ℕ
  pub id_tag : ℕ
  pub meter_start_wh : ℤ
  pub timestamp : Option ℕ

pub data StartOutcome : Type 0 where
  accepted : (session : ℕ × ChargingSession) → StartOutcome
  unknown_id_tag wrong_charger : StartOutcome
  session_already : SessionStatus → StartOutcome

-- The session once the charger has confirmed its start.
abbrev pub started :
    (now transaction_id : ℕ) → StartTransactionInput → ChargingSession → ChargingSession
started now transaction_id input s = record s {
  transaction_id = some transaction_id;
  status = active;
  started_at = some (parse_charger_time now input.timestamp);
  start_meter_wh = some input.meter_start_wh;
  last_meter_wh = some input.meter_start_wh;
}

-- The unique index on the transaction ids of the other sessions.
unfoldable pub is_taken : (k transaction_id : ℕ) → Table ChargingSession → Bool
is_taken k transaction_id [] = false
is_taken k transaction_id ((j, s) ∷ t) =
    (not (j == k) && is_ref s.transaction_id transaction_id) || is_taken k transaction_id t

-- The save, tried again once with the counter moved past the highest id when another process took
-- the first one.
unfoldable pub confirm_start :
    (now : ℕ)
    → StartTransactionInput
    → ℕ × ChargingSession
    → (next : ℕ) → Store
    → Result SessionError StartOutcome × (ℕ × Store)
confirm_start now input (k, s) next db =
    let first = next + 1 in
    if is_taken k first db.sessions
    then (let second = seed_transaction_id (highest_transaction_id db.sessions) first + 1 in
        if is_taken k second db.sessions then (err duplicate_key, (second, db)) else (
          ok (accepted (k, started now second input s)),
          (second, save_session k (started now second input s) db),
        ))
    else (
      ok (accepted (k, started now first input s)),
      (first, save_session k (started now first input s) db),
    )

unfoldable pub on_start_transaction :
    (now : ℕ)
    → StartTransactionInput
    → (next : ℕ) → Store
    → Result SessionError StartOutcome × (ℕ × Store)
on_start_transaction now input next db =
    elim (find_one (λ (s : ChargingSession). s.id_tag == input.id_tag) db.sessions) [
      | none ↦ (ok unknown_id_tag, (next, db))
      | some (k, s) ↦
          if is_charging s.status && is_some s.transaction_id
          then (ok (accepted (k, s)), (next, db))
          else if not (is_initiating s.status)
          then (ok (session_already s.status), (next, db))
          else if not (s.charger_id == input.charger_id)
          then (ok wrong_charger, (next, db))
          else confirm_start now input (k, s) next db
    ]

pub record MeterValuesInput : Type 0 where
  pub transaction_id : ℕ
  pub energy_wh : ℤ
  pub power_kw : Option ℤ
  pub soc_percent : Option ℤ
  pub timestamp : Option ℕ

pub data MeterOutcome : Type 0 where
  stored invalid_energy no_open_session not_newer duplicate_reading : MeterOutcome

abbrev pub with_transaction_id : ℕ → ChargingSession → Bool
with_transaction_id transaction_id s = is_ref s.transaction_id transaction_id && is_open s.status

-- `session.lastMeterWh ?? session.startMeterWh ?? 0`
abbrev pub previous_wh : ChargingSession → ℤ
previous_wh s = get_or (or_else s.last_meter_wh s.start_meter_wh) (pos 0)

abbrev pub same_moment : (session_id meter_timestamp : ℕ) → MeterReading → Bool
same_moment session_id meter_timestamp r =
    r.session_id == session_id && r.meter_timestamp == meter_timestamp

abbrev pub metered : ℤ → ChargingSession → ChargingSession
metered energy_wh s = record s {
  last_meter_wh = some energy_wh;
  energy_consumed_wh = consumed_wh s.start_meter_wh (some energy_wh);
}

-- A reading of an open session that is newer than the last one.
unfoldable pub store_reading :
    ObjectIds → (now : ℕ) → MeterValuesInput → ℕ × ChargingSession → Store → MeterOutcome × Store
store_reading ids now input (k, s) db =
    let at = parse_charger_time now input.timestamp in
    let reading : MeterReading = record {
      session_id = k;
      meter_timestamp = at;
      energy_wh = pos_part input.energy_wh;
      power_kw = input.power_kw;
      soc_percent = input.soc_percent;
    } in
    if is_some (find_one (same_moment k at) db.readings) then (duplicate_reading, db) else (
      stored,
      save_session k (metered input.energy_wh s)
          (record db { readings = create (ids.fresh _ db.readings) reading db.readings }),
    )

unfoldable pub on_meter_values :
    ObjectIds → (now : ℕ) → MeterValuesInput → Store → MeterOutcome × Store
on_meter_values ids now input db =
    if ltb_ℤ input.energy_wh (pos 0)
    then (invalid_energy, db)
    else elim (find_one (with_transaction_id input.transaction_id) db.sessions) [
      | none ↦ (no_open_session, db)
      | some (k, s) ↦
          if leb_ℤ input.energy_wh (previous_wh s)
          then (not_newer, db)
          else store_reading ids now input (k, s) db
    ]

pub record StopTransactionInput : Type 0 where
  pub transaction_id : ℕ
  pub meter_stop_wh : ℤ
  pub timestamp : Option ℕ

abbrev pub finished : (now : ℕ) → StopTransactionInput → ChargingSession → ChargingSession
finished now input s = record s {
  status = completed;
  ended_at = some (parse_charger_time now input.timestamp);
  end_meter_wh = some input.meter_stop_wh;
  last_meter_wh = some input.meter_stop_wh;
  energy_consumed_wh = consumed_wh s.start_meter_wh (some input.meter_stop_wh);
  stop_reason = some (if is_stopping s.status then remote else local);
}

-- The session that ended and the store; nothing for an id that no open session has.
unfoldable pub on_stop_transaction :
    (now : ℕ) → StopTransactionInput → Store → Option (ℕ × ChargingSession) × Store
on_stop_transaction now input db =
    elim (find_one (with_transaction_id input.transaction_id) db.sessions) [
      | none ↦ (none, db)
      | some (k, s) ↦
          let ended = finished now input s in
          (some (k, compute_amount ended), save_session k ended db)
    ]
