-- ===== src/Session/Reports.antt =====
-- A creation and every report of a charger keep one open session for each connector and for each
-- driver (backend/src/services/sessionEvents.service.ts).
use ev_charger_management_pl.Prelude.{
  ℕ, ◌≡◌, ◌⊎◌, refl, ◌∙◌, some, true, Option-cases, Bool-cases, inl, inr, ◌==◌, is_some, ◌&&◌,
  arith,
}
use ev_charger_management_pl.Prelude.Table.{
  Table, ObjectIds, IsTable, find_by_id, find_one, find_one_sound, find_one_fits, save-IsTable,
  create-IsTable, create,
}
use ev_charger_management_pl.Models.Session.{
  ChargingSession, is_open, is_initiating, is_charging, compute_amount, compute_amount_same,
}
use ev_charger_management_pl.Store.{Store}
use ev_charger_management_pl.Session.Events.{
  save_session, StartTransactionInput, started, confirm_start, on_start_transaction,
  MeterValuesInput, on_meter_values, with_transaction_id, metered, StopTransactionInput, finished,
  on_stop_transaction,
}
use ev_charger_management_pl.Session.Starting.{create_session, any_session}
use ev_charger_management_pl.Session.Evolution.{has_tag, confirm_start_lem}
use ev_charger_management_pl.Session.Metering.{reading_effect, with_id_open}
use ev_charger_management_pl.Session.Exclusive.{
  IsExclusive, open_of, open_on, Keeps, save-IsExclusive, create_session-IsExclusive,
}

-- Proper tables with one open session for each connector and for each driver.
pub record IsSound (t : Table ChargingSession) : Type 0 where
  pub proper : IsTable t
  pub exclusive : IsExclusive t

-- The hook that runs before a save leaves alone what matters here.
priced-Keeps : (s u : ChargingSession) → Keeps s u → Keeps s (compute_amount u)
priced-Keeps s u keeps =
    let (status, connector, driver) = compute_amount_same u in
    record {
      same_connector = connector ∙ keeps.same_connector;
      same_driver = driver ∙ keeps.same_driver;
      opens_nothing = λ h. keeps.opens_nothing (ground (arith, status, h));
    }

save_session-IsSound :
    (k : ℕ) (s u : ChargingSession) (db : Store)
    → find_by_id k db.sessions ≡ some s
    → Keeps s u
    → IsSound db.sessions
    → IsSound (save_session k u db).sessions
save_session-IsSound k s u db stored keeps h = record {
  proper = save-IsTable k (compute_amount u) db.sessions h.proper;
  exclusive =
      save-IsExclusive k s (compute_amount u) db.sessions stored (priced-Keeps s u keeps)
        h.exclusive;
}

-- A session that is open may be rewritten to any status.
open-Keeps :
    (s u : ChargingSession)
    → u.connector_id ≡ s.connector_id
    → u.user_id ≡ s.user_id
    → is_open s.status ≡ true
    → Keeps s u
open-Keeps s u connector driver opened = record {
  same_connector = connector;
  same_driver = driver;
  opens_nothing = λ h. opened;
}

start_cases :
    (now : ℕ) (input : StartTransactionInput) (next : ℕ) (db : Store)
    → ((on_start_transaction now input next db).1.1 ≡ db)
      ⊎ ((k : ℕ) × (s : ChargingSession) × (find_one (has_tag input.id_tag) db.sessions
            ≡ some (k, s))
          × (is_open s.status ≡ true)
          × ((on_start_transaction now input next db).1.1
              ≡ (confirm_start now input (k, s) next db).1.1))
unfolding on_start_transaction
start_cases now input next db = elim (Option-cases (find_one (has_tag input.id_tag) db.sessions)) [
  | inl missing ↦ inl (ground arith)
  | inr ((k, s), found) ↦ elim (Bool-cases (is_charging s.status && is_some s.transaction_id)) [
    | inl resent ↦ inl (ground arith)
    | inr fresh ↦ elim (Bool-cases (is_initiating s.status)) [
      | inr past ↦ inl (ground arith)
      | inl waits ↦ elim (Bool-cases (s.charger_id == input.charger_id)) [
        | inr foreign ↦ inl (ground arith)
        | inl own ↦ inr (k, s, found, ground arith, ground arith)
      ]
    ]
  ]
]

pub start-IsSound :
    (now : ℕ) (input : StartTransactionInput) (next : ℕ) (db : Store)
    → IsSound db.sessions
    → IsSound (on_start_transaction now input next db).1.1.sessions
start-IsSound now input next db h = elim (start_cases now input next db) [
  | inl same ↦ rw same h
  | inr (k, s, found, opened, e) ↦
      let (stored, fits) = find_one_sound (has_tag input.id_tag) db.sessions k s h.proper found in
      let (id, later, free, confirmed) = confirm_start_lem now input k s next db in
      rw (e, confirmed)
        (save_session-IsSound k s (started now id input s) db stored
          (open-Keeps s (started now id input s) refl refl opened) h)
]

pub reading-IsSound :
    (ids : ObjectIds) (now : ℕ) (input : MeterValuesInput) (db : Store)
    → IsSound db.sessions
    → IsSound (on_meter_values ids now input db).1.sessions
reading-IsSound ids now input db h = elim (reading_effect ids now input db h.proper) [
  | inl (refused, same) ↦ rw same h
  | inr (k, s, done, stored, opened, tid, newer, e) ↦
      let u = metered input.energy_wh s in
      rw e (record {
        proper = save-IsTable k u db.sessions h.proper;
        exclusive =
            save-IsExclusive k s u db.sessions stored (open-Keeps s u refl refl opened) h.exclusive;
      })
]

stop_cases :
    (now : ℕ) (input : StopTransactionInput) (db : Store)
    → ((on_stop_transaction now input db).1 ≡ db)
      ⊎ ((k : ℕ) × (s : ChargingSession) × (find_one
              (with_transaction_id input.transaction_id)
              db.sessions
            ≡ some (k, s))
          × (is_open s.status ≡ true)
          × ((on_stop_transaction now input db).1 ≡ save_session k (finished now input s) db))
unfolding on_stop_transaction
stop_cases now input db =
    elim (Option-cases (find_one (with_transaction_id input.transaction_id) db.sessions)) [
      | inl missing ↦ inl (rw (missing, on_stop_transaction) refl)
      | inr ((k, s), found) ↦
          let fits =
            find_one_fits (with_transaction_id input.transaction_id) db.sessions k s found in
          inr (
            k,
            s,
            found,
            with_id_open input.transaction_id s fits,
            rw (found, on_stop_transaction) refl,
          )
    ]

pub stop-IsSound :
    (now : ℕ) (input : StopTransactionInput) (db : Store)
    → IsSound db.sessions
    → IsSound (on_stop_transaction now input db).1.sessions
stop-IsSound now input db h = elim (stop_cases now input db) [
  | inl same ↦ rw same h
  | inr (k, s, found, opened, e) ↦
      let (stored, fits) =
        find_one_sound (with_transaction_id input.transaction_id) db.sessions k s h.proper found in
      rw e (
        save_session-IsSound k s (finished now input s) db stored
          (open-Keeps s (finished now input s) refl refl opened) h)
]

create_session_cases :
    (ids : ObjectIds) (s : ChargingSession) (db : Store)
    → ((create_session ids s db).1 ≡ db)
      ⊎ ((create_session ids s db).1.sessions ≡ create (ids.fresh _ db.sessions) s db.sessions)
unfolding create_session
create_session_cases ids s db = elim (Bool-cases (any_session (open_of s.user_id) db.sessions)) [
  | inl one ↦ inl (rw (one, create_session) refl)
  | inr no_driver ↦ elim (Bool-cases (any_session (open_on s.connector_id) db.sessions)) [
    | inl one ↦ inl (rw (no_driver, one, create_session) refl)
    | inr no_connector ↦ elim (Bool-cases (any_session (has_tag s.id_tag) db.sessions)) [
      | inl one ↦ inl (rw (no_driver, no_connector, one, create_session) refl)
      | inr no_tag ↦ inr (rw (no_driver, no_connector, no_tag, create_session) refl)
    ]
  ]
]

pub create-IsSound :
    (ids : ObjectIds) (s : ChargingSession) (db : Store)
    → IsSound db.sessions
    → IsSound (create_session ids s db).1.sessions
create-IsSound ids s db h = record {
  proper = elim (create_session_cases ids s db) [
    | inl same ↦ rw same h.proper
    | inr e ↦
        rw e (
          create-IsTable (ids.fresh _ db.sessions) s db.sessions (ids.unused _ db.sessions)
            h.proper)
  ];
  exclusive = create_session-IsExclusive ids s db h.exclusive;
}
