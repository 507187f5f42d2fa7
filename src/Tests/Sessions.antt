-- ===== src/Tests/Sessions.antt =====
-- Runs of the session code on sample sessions.
use ev_charger_management_pl.Prelude.{
  if◌then◌else◌, ℕ, ◌≤◌, ◌<◌, ◌≡◌, ◌⊎◌, ◌↔◌, refl, some, none, Bool, true, false, min, [], ◌∷◌,
  arith,
}
use ev_charger_management_pl.Prelude.Int.{pos, ◌<ℤ◌}
use ev_charger_management_pl.Prelude.Result.{ok}
use ev_charger_management_pl.Prelude.Table.{Table, IsTable, find_by_id, find_one, save}
use ev_charger_management_pl.Models.Charger.{ChargerStatus, HardwareStatus, ConnectorStatus}
use ev_charger_management_pl.Models.Session.{
  remote, local, bill, paid_if_free, is_stopping, ChargingSession, MeterReading, initiating, active,
  completed, is_open,
}
use ev_charger_management_pl.Store.{Store}
use ev_charger_management_pl.Session.Events.{
  save_session, consumed_wh, StartTransactionInput, accepted, started, is_taken,
  on_start_transaction, MeterValuesInput, stored, not_newer, with_transaction_id, store_reading,
  on_meter_values, previous_wh, StopTransactionInput, on_stop_transaction,
}
use ev_charger_management_pl.Session.Failing.{last_evidence_of_charging}
use ev_charger_management_pl.Session.Starting.{assess_startability}
use ev_charger_management_pl.Session.Evolution.{has_tag, start_confirmed, start_resent}
use ev_charger_management_pl.Session.Metering.{
  is_stored, with_reading, reading_effect, reading_resent,
}
use ev_charger_management_pl.Session.Reports.{IsSound}
use ev_charger_management_pl.Session.Steps.{then_one, none_yet, stop_reported, SessionSteps-IsSound}
use ev_charger_management_pl.Session.Startable.{Free, assess_startability_iff}
use ev_charger_management_pl.Session.Ending.{IsOnly, stop_bills}
use ev_charger_management_pl.Session.LastSeen.{is_later, IsReading, evidence_bounds}
use ev_charger_management_pl.Tests.Sample.{counted_ids, charge, credited}

-- A charge that waits for its charger, and one that runs.
abbrev asked : ChargingSession
asked = record charge {
  transaction_id = none;
  status = initiating;
  started_at = none;
  ended_at = none;
  start_meter_wh = none;
  last_meter_wh = none;
  end_meter_wh = none;
  energy_consumed_wh = 0;
  amount_paise = none;
}

abbrev running : ChargingSession
running = record charge {
  status = active;
  ended_at = none;
  last_meter_wh = some (pos 0);
  end_meter_wh = none;
  energy_consumed_wh = 0;
  amount_paise = none;
}

abbrev with_session : ChargingSession → Store
with_session s = record credited { sessions = (3, s) ∷ [] }

proper-IsTable : (s : ChargingSession) → IsTable (with_session s).sessions
unfolding IsTable find_by_id
proper-IsTable s = (refl, tt)

lone-IsSound : (s : ChargingSession) → IsSound (with_session s).sessions
unfolding find_by_id
lone-IsSound s = record {
  proper = proper-IsTable s;
  exclusive = record {
    connector = λ j k a b found_a found_b open_a open_b same. ground arith;
    driver = λ j k a b found_a found_b open_a open_b same. ground arith;
  };
}

abbrev plug_in : StartTransactionInput
plug_in = record {
  charger_id = 5;
  connector_number = 1;
  id_tag = 77;
  meter_start_wh = pos 0;
  timestamp = some 2_000;
}

asked_found : find_one (has_tag 77) (with_session asked).sessions ≡ some (3, asked)
unfolding find_one
asked_found = refl

start_confirmed_example :
    (id : ℕ) × (1_000 < id)
    × (is_taken 3 id (with_session asked).sessions ≡ false)
    × (on_start_transaction 2_100 plug_in 1_000 (with_session asked) ≡ (
      ok (accepted (3, started 2_100 id plug_in asked)),
      (id, save_session 3 (started 2_100 id plug_in asked) (with_session asked)),
    ))
start_confirmed_example =
    start_confirmed 2_100 plug_in 3 asked 1_000 (with_session asked) asked_found refl refl

abbrev begun : Store
begun = (on_start_transaction 2_100 plug_in 1_000 (with_session asked)).1.1

-- The store some time later, when other documents are gone.
abbrev begun_later : Store
begun_later = record begun { readings = []; payments = [] }

start_resent_example :
    (s' : ChargingSession) × ((on_start_transaction 2_100 plug_in 1_000 (with_session asked)).0
      ≡ ok (accepted (3, s')))
    × (on_start_transaction 2_200 plug_in 1_050 begun_later
        ≡ (ok (accepted (3, s')), (1_050, begun_later)))
start_resent_example =
    start_resent 2_100 2_200 plug_in 3 asked 1_000 1_050 (with_session asked) begun_later
      (proper-IsTable asked) asked_found refl refl refl

abbrev reading : MeterValuesInput
reading = record {
  transaction_id = 1_001;
  energy_wh = pos 50_000;
  power_kw = none;
  soc_percent = none;
  timestamp = some 3_000;
}

reading_effect_example :
    let db = with_session running in
    let r = on_meter_values counted_ids 3_100 reading db in
    ((is_stored r.0 ≡ false) × (r.1 ≡ db))
    ⊎ ((k : ℕ) × (s : ChargingSession) × (is_stored r.0 ≡ true)
        × (find_by_id k db.sessions ≡ some s)
        × (is_open s.status ≡ true)
        × (s.transaction_id ≡ some 1_001)
        × (previous_wh s <ℤ pos 50_000)
        × (r.1 ≡ with_reading counted_ids 3_100 k reading s db))
reading_effect_example =
    reading_effect counted_ids 3_100 reading (with_session running) (proper-IsTable running)

taken_in : (on_meter_values counted_ids 3_100 reading (with_session running)).0 ≡ stored
unfolding on_meter_values store_reading find_one
taken_in = refl

abbrev read_later : Store
read_later = record (on_meter_values counted_ids 3_100 reading (with_session running)).1 {
  payments = [];
}

reading_resent_example :
    on_meter_values counted_ids 3_200 reading read_later ≡ (not_newer, read_later)
reading_resent_example =
    reading_resent counted_ids 3_100 3_200 reading (with_session running) read_later
      (proper-IsTable running) taken_in refl

abbrev unplug : StopTransactionInput
unplug = record { transaction_id = 1_001; meter_stop_wh = pos 1_200_000; timestamp = some 9_000 }

SessionSteps-IsSound_example :
    IsSound (on_stop_transaction 9_100 unplug (with_session running)).1.sessions
SessionSteps-IsSound_example =
    SessionSteps-IsSound counted_ids (with_session running)
      (on_stop_transaction 9_100 unplug (with_session running)).1 (lone-IsSound running)
      (then_one (with_session running) (on_stop_transaction 9_100 unplug (with_session running)).1
        none_yet (stop_reported 9_100 unplug (with_session running)))

running-IsOnly : IsOnly 1_001 (with_session running).sessions
unfolding is_taken find_one
running-IsOnly k s found = ground arith

stop_bills_example :
    let db = with_session running in
    let after = (on_stop_transaction 9_100 unplug db).1 in
    ((find_one (with_transaction_id 1_001) db.sessions ≡ none) × (after ≡ db))
    ⊎ ((k : ℕ) × (s : ChargingSession) × (find_by_id k db.sessions ≡ some s)
        × (s.transaction_id ≡ some 1_001)
        × (is_open s.status ≡ true)
        × (after ≡ (
            let energy = consumed_wh s.start_meter_wh (some (pos 1_200_000)) in
            let rate = s.applied_price_per_kwh_paise in
            record db {
              sessions =
                  save k
                    (record s {
                      status = completed;
                      ended_at = some 9_000;
                      end_meter_wh = some (pos 1_200_000);
                      last_meter_wh = some (pos 1_200_000);
                      energy_consumed_wh = energy;
                      stop_reason = some (if is_stopping s.status then remote else local);
                      amount_paise = bill s.amount_paise rate energy;
                      payment_status = paid_if_free s.amount_paise rate energy s.payment_status;
                    })
                    db.sessions;
            }))
        × (on_stop_transaction 9_900 unplug after ≡ (none, after)))
stop_bills_example =
    stop_bills 9_100 9_900 unplug unplug (with_session running) (proper-IsTable running)
      running-IsOnly refl

abbrev readings : Table MeterReading
readings =
    (
      0,
      record {
        session_id = 3;
        meter_timestamp = 3_000;
        energy_wh = 50_000;
        power_kw = none;
        soc_percent = none;
      },
    )
    ∷ []

readings-IsTable : IsTable readings
unfolding IsTable find_by_id
readings-IsTable = (refl, tt)

evidence_bounds_example :
    let e = last_evidence_of_charging 8_000 3 running readings in
    (2_000 ≤ e)
    × (e ≤ 8_000)
    × (find_one (is_later 8_000 3 e) readings ≡ none)
    × ((e ≡ 2_000) ⊎ ((at : ℕ) × IsReading 3 at readings × (e ≡ min 8_000 at)))
evidence_bounds_example =
    evidence_bounds 8_000 3 2_000 running readings refl (omega arith) readings-IsTable

assess_startability_iff_example :
    (assess_startability ConnectorStatus.preparing ChargerStatus.available true
        HardwareStatus.operative
      ≡ none)
    ↔ ((◌≡◌ {A = ChargerStatus} ChargerStatus.available ChargerStatus.available)
        × (◌≡◌ {A = Bool} true true)
        × (◌≡◌ {A = HardwareStatus} HardwareStatus.operative HardwareStatus.operative)
        × Free ConnectorStatus.preparing)
assess_startability_iff_example =
    assess_startability_iff ConnectorStatus.preparing ChargerStatus.available true
      HardwareStatus.operative
