-- ===== src/Session/Ending.antt =====
-- How a session ends: the bill of a stop that a charger reports
-- (backend/src/services/sessionEvents.service.ts with the hook of
-- backend/src/models/chargingSession.model.ts).
use ev_charger_management_pl.Prelude.{
  ℕ, ◌≡◌, ◌⊎◌, inl, inr, ==_iff, Option-cases, true, false, some, none, refl, ap, arith, get_or, [],
  ◌∷◌, if◌then◌else◌, ◌∙◌,
}
use ev_charger_management_pl.Prelude.Table.{
  Table, IsTable, find_by_id, find_one, find_one_sound, save,
}
use ev_charger_management_pl.Models.Session.{
  ChargingSession, completed, is_open, compute_amount, compute_amount_bill, bill, paid_if_free,
  is_stopping, remote, local,
}
use ev_charger_management_pl.Store.{Store}
use ev_charger_management_pl.Session.Events.{
  consumed_wh, is_taken, StopTransactionInput, finished, with_transaction_id, on_stop_transaction,
}

-- The index on the transaction ids: no other session has the id of one that is open under it.
abbrev pub IsOnly : ℕ → Table ChargingSession → Type 0
IsOnly id t =
    (k : ℕ) (s : ChargingSession)
    → find_one (with_transaction_id id) t ≡ some (k, s)
    → is_taken k id t ≡ false

none_left :
    (k id : ℕ) (t : Table ChargingSession)
    → find_by_id k t ≡ none
    → is_taken k id t ≡ false
    → find_one (with_transaction_id id) t ≡ none
unfolding find_by_id is_taken find_one
none_left k id [] gone only = refl
none_left k id ((j, s) ∷ t) gone only = ground (arith, none_left k id t)

none_open :
    (k id : ℕ) (s : ChargingSession) (t : Table ChargingSession)
    → IsTable t
    → is_open s.status ≡ false
    → is_taken k id t ≡ false
    → find_one (with_transaction_id id) (save k s t) ≡ none
unfolding IsTable is_taken find_one save
none_open k id s [] h ended only = refl
none_open k id s ((j, x) ∷ t) h ended only =
    ground (arith, none_open k id s t h.1, none_left k id t, ==_iff j k)

no_stop :
    (now : ℕ) (input : StopTransactionInput) (db : Store)
    → find_one (with_transaction_id input.transaction_id) db.sessions ≡ none
    → on_stop_transaction now input db ≡ (none, db)
unfolding on_stop_transaction
no_stop now input db missing = rw (missing, on_stop_transaction) refl

-- A stop under a transaction id that no open session has changes nothing. A stop under one that an
-- open session has, and no other session, completes that session with the energy between the meters,
-- and the bill that is due: what was billed before, or else the price of that energy at the session's
-- rate, if it has one, paid if it is nothing. No other session and nothing else in the store changes,
-- and on the store that this leaves another stop under the id, whatever it reports, changes nothing and
-- bills nothing more.
pub stop_bills :
    (now now' : ℕ) (input input' : StopTransactionInput) (db : Store)
    → IsTable db.sessions
    → IsOnly input.transaction_id db.sessions
    → input'.transaction_id ≡ input.transaction_id
    → let after = (on_stop_transaction now input db).1 in
      ((find_one (with_transaction_id input.transaction_id) db.sessions ≡ none) × (after ≡ db))
      ⊎ ((k : ℕ) × (s : ChargingSession) × (find_by_id k db.sessions ≡ some s)
          × (s.transaction_id ≡ some input.transaction_id)
          × (is_open s.status ≡ true)
          × (after ≡ (
              let energy = consumed_wh s.start_meter_wh (some input.meter_stop_wh) in
              let rate = s.applied_price_per_kwh_paise in
              record db {
                sessions =
                    save k
                      (record s {
                        status = completed;
                        ended_at = some (get_or input.timestamp now);
                        end_meter_wh = some input.meter_stop_wh;
                        last_meter_wh = some input.meter_stop_wh;
                        energy_consumed_wh = energy;
                        stop_reason = some (if is_stopping s.status then remote else local);
                        amount_paise = bill s.amount_paise rate energy;
                        payment_status = paid_if_free s.amount_paise rate energy s.payment_status;
                      })
                      db.sessions;
              }))
          × (on_stop_transaction now' input' after ≡ (none, after)))
unfolding on_stop_transaction
stop_bills now now' input input' db h only same =
    elim (Option-cases (find_one (with_transaction_id input.transaction_id) db.sessions)) [
      | inl missing ↦ inl (missing, rw (missing, on_stop_transaction) refl)
      | inr ((k, s), found) ↦
          let (stored, fits) =
            find_one_sound (with_transaction_id input.transaction_id) db.sessions k s h found in
          let ended = compute_amount (finished now input s) in
          let written : (on_stop_transaction now input db).1
              ≡ record db { sessions = save k ended db.sessions } =
            rw (found, on_stop_transaction) refl in
          let over : is_open ended.status ≡ false =
            rw (compute_amount_bill (finished now input s) refl) refl in
          let gone = none_open k input.transaction_id ended db.sessions h over (only k s found) in
          inr (
            k,
            s,
            stored,
            ground (arith, fits),
            ground (arith, fits),
            written
                ∙ ap (λ (x : ChargingSession). record db { sessions = save k x db.sessions })
                    (compute_amount_bill (finished now input s) refl),
            no_stop now' input' (on_stop_transaction now input db).1 (rw (written, same) gone),
          )
    ]
