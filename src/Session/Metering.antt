-- ===== src/Session/Metering.antt =====
-- What a meter reading does: `onMeterValues` of backend/src/services/sessionEvents.service.ts. It
-- moves the meter of its session forward or changes nothing, and the same reading sent again changes
-- nothing.
use ev_charger_management_pl.Prelude.{
  ℕ, ◌∙◌, ◌≡◌, ◌⊎◌, refl, some, true, false, Bool, Option-cases, Bool-cases, inl, inr, is_some,
  get_or, arith,
}
use ev_charger_management_pl.Prelude.Int.{ℤ, pos, pos_part, ltb_ℤ, leb_ℤ, ◌<ℤ◌}
use ev_charger_management_pl.Prelude.Table.{
  ObjectIds, IsTable, find_by_id, find_one, find_one-save, find_one_sound, find_one_fits, save,
  create,
}
use ev_charger_management_pl.Models.Session.{ChargingSession, MeterReading, is_open, compute_amount}
use ev_charger_management_pl.Store.{Store}
use ev_charger_management_pl.Session.Events.{
  MeterValuesInput, consumed_wh, MeterOutcome, stored, not_newer, with_transaction_id, metered,
  store_reading, on_meter_values, same_moment, previous_wh, parse_charger_time,
}

abbrev pub is_stored : MeterOutcome → Bool
is_stored stored = true
is_stored _ = false

newer_lem : (a b : ℤ) → leb_ℤ a b ≡ false → b <ℤ a
newer_lem a b h = ground arith

-- An open session keeps its price for its end.
compute_amount-open : (s : ChargingSession) → is_open s.status ≡ true → compute_amount s ≡ s
unfolding compute_amount
compute_amount-open s h = rw (h, compute_amount) refl

pub with_id_open :
    (id : ℕ) (s : ChargingSession) → with_transaction_id id s ≡ true → is_open s.status ≡ true
with_id_open id s h = ground arith

-- The row that keeps a reading.
abbrev pub row_of : (now k : ℕ) → MeterValuesInput → MeterReading
row_of now k input = record {
  session_id = k;
  meter_timestamp = get_or input.timestamp now;
  energy_wh = pos_part input.energy_wh;
  power_kw = input.power_kw;
  soc_percent = input.soc_percent;
}

-- The store with a reading of a session in it: its row, and the meter and the energy of the session.
abbrev pub with_reading :
    ObjectIds → (now k : ℕ) → MeterValuesInput → ChargingSession → Store → Store
with_reading ids now k input s db = record db {
  readings = create (ids.fresh MeterReading db.readings) (row_of now k input) db.readings;
  sessions =
      save k
        (record s {
          last_meter_wh = some input.energy_wh;
          energy_consumed_wh = consumed_wh s.start_meter_wh (some input.energy_wh);
        })
        db.sessions;
}

store_reading_cases :
    (ids : ObjectIds) (now : ℕ) (input : MeterValuesInput) (k : ℕ) (s : ChargingSession)
    (db : Store)
    → is_open s.status ≡ true
    → ((is_stored (store_reading ids now input (k, s) db).0 ≡ false)
        × ((store_reading ids now input (k, s) db).1 ≡ db))
      ⊎ ((is_stored (store_reading ids now input (k, s) db).0 ≡ true)
          × ((store_reading ids now input (k, s) db).1 ≡ with_reading ids now k input s db))
unfolding store_reading
store_reading_cases ids now input k s db h =
    let at = parse_charger_time now input.timestamp in
    elim (Bool-cases (is_some (find_one (same_moment k at) db.readings))) [
      | inl known ↦ inl (rw (known, store_reading) refl, rw (known, store_reading) refl)
      | inr fresh ↦ inr (
        rw (fresh, store_reading) refl,
        rw (fresh, store_reading, compute_amount-open (metered input.energy_wh s) h) refl,
      )
    ]

-- A reading changes nothing, or it belongs to a stored open session and is past its meter.
pub reading_cases :
    (ids : ObjectIds) (now : ℕ) (input : MeterValuesInput) (db : Store)
    → ((is_stored (on_meter_values ids now input db).0 ≡ false)
        × ((on_meter_values ids now input db).1 ≡ db))
      ⊎ ((k : ℕ) × (s : ChargingSession) × (find_one
              (with_transaction_id input.transaction_id)
              db.sessions
            ≡ some (k, s))
          × (ltb_ℤ input.energy_wh (pos 0) ≡ false)
          × (previous_wh s <ℤ input.energy_wh)
          × (is_stored (on_meter_values ids now input db).0 ≡ true)
          × ((on_meter_values ids now input db).1 ≡ with_reading ids now k input s db))
unfolding on_meter_values
reading_cases ids now input db = elim (Bool-cases (ltb_ℤ input.energy_wh (pos 0))) [
  | inl negative ↦ inl (ground arith, ground arith)
  | inr valid ↦
      elim (Option-cases (find_one (with_transaction_id input.transaction_id) db.sessions)) [
        | inl missing ↦ inl (ground arith, ground arith)
        | inr ((k, s), found) ↦ elim (Bool-cases (leb_ℤ input.energy_wh (previous_wh s))) [
          | inl old ↦ inl (ground arith, ground arith)
          | inr newer ↦
              elim (store_reading_cases ids now input k s db (
                with_id_open input.transaction_id s (
                  find_one_fits (with_transaction_id input.transaction_id) db.sessions k s
                    found))) [
                      | inl (refused, same) ↦ inl (ground arith, ground arith)
                      | inr (done, after) ↦ inr (
                        k,
                        s,
                        found,
                        valid,
                        newer_lem input.energy_wh (previous_wh s) newer,
                        ground (arith, done),
                        ground (arith, after),
                      )
                    ]
        ]
      ]
]

with_id_named :
    (id : ℕ) (s : ChargingSession) → with_transaction_id id s ≡ true → s.transaction_id ≡ some id
with_id_named id s h = ground (arith)

-- A reading that is stored names an open session by its transaction id and is past that session's
-- meter; it adds one row that keeps it and moves the meter to its own value, with the energy counted
-- from the start, and nothing else in the store changes. A reading that is not stored changes nothing
-- at all.
pub reading_effect :
    (ids : ObjectIds) (now : ℕ) (input : MeterValuesInput) (db : Store)
    → IsTable db.sessions
    → let r = on_meter_values ids now input db in
      ((is_stored r.0 ≡ false) × (r.1 ≡ db))
      ⊎ ((k : ℕ) × (s : ChargingSession) × (is_stored r.0 ≡ true)
          × (find_by_id k db.sessions ≡ some s)
          × (is_open s.status ≡ true)
          × (s.transaction_id ≡ some input.transaction_id)
          × (previous_wh s <ℤ input.energy_wh)
          × (r.1 ≡ with_reading ids now k input s db))
reading_effect ids now input db h = elim (reading_cases ids now input db) [
  | inl nothing ↦ inl nothing
  | inr (k, s, found, valid, newer, done, after) ↦
      let (there, fits) =
        find_one_sound (with_transaction_id input.transaction_id) db.sessions k s h found in
      inr (
        k,
        s,
        done,
        there,
        with_id_open input.transaction_id s fits,
        with_id_named input.transaction_id s fits,
        newer,
        after,
      )
]

resent_not_newer :
    (ids : ObjectIds) (now : ℕ) (input : MeterValuesInput) (k : ℕ) (s : ChargingSession)
    (db : Store)
    → ltb_ℤ input.energy_wh (pos 0) ≡ false
    → find_one (with_transaction_id input.transaction_id) db.sessions
      ≡ some (k, metered input.energy_wh s)
    → on_meter_values ids now input db ≡ (not_newer, db)
unfolding on_meter_values
resent_not_newer ids now input k s db valid found = ground (arith, valid, found)

-- A stored reading that the charger sends again, in any later store in which the open session of its
-- transaction is still as the reading left it, whatever else changed, is refused as no newer, and
-- nothing changes.
pub reading_resent :
    (ids : ObjectIds) (now now' : ℕ) (input : MeterValuesInput) (db later : Store)
    → IsTable db.sessions
    → (on_meter_values ids now input db).0 ≡ stored
    → find_one (with_transaction_id input.transaction_id) later.sessions
      ≡ find_one
          (with_transaction_id input.transaction_id)
          (on_meter_values ids now input db).1.sessions
    → on_meter_values ids now' input later ≡ (not_newer, later)
reading_resent ids now now' input db later h done kept = elim (reading_cases ids now input db) [
  | inl (refused, same) ↦ absurd (cc (rw done at refused))
  | inr (k, s, found, valid, newer, stored_it, after) ↦
      let p = with_transaction_id input.transaction_id in
      let still =
        find_one-save p k s (metered input.energy_wh s) db.sessions found h
          (find_one_fits p db.sessions k s found) in
      resent_not_newer ids now' input k s later valid (kept ∙ rw after still)
]
