-- ===== src/Session/Evolution.antt =====
-- How charger reports change a session: a start is confirmed with a transaction id that no other
-- session has, whatever the counter was, and a report that is sent again changes nothing
-- (backend/src/services/sessionEvents.service.ts).
use ev_charger_management_pl.Prelude.{
  ℕ, ap, ◌∙◌, ◌+◌, ◌≤◌, ◌<◌, ◌≡◌, refl, Bool, some, true, false, Bool-cases, inl, inr, ◌==◌, [],
  ◌∷◌, arith,
}
use ev_charger_management_pl.Prelude.Result.{Result, ok}
use ev_charger_management_pl.Prelude.Table.{Table, IsTable, find_one, find_one-save, find_one_sound}
use ev_charger_management_pl.Models.Session.{ChargingSession, initiating, compute_amount}
use ev_charger_management_pl.Store.{Store}
use ev_charger_management_pl.Session.Events.{
  save_session, seed_transaction_id, highest_transaction_id, StartTransactionInput, SessionError,
  StartOutcome, accepted, started, is_taken, confirm_start, on_start_transaction,
}

taken_le :
    (k id : ℕ) (t : Table ChargingSession) → is_taken k id t ≡ true → id ≤ highest_transaction_id t
unfolding is_taken highest_transaction_id
taken_le k id [] h = ground arith
taken_le k id ((j, s) ∷ t) h = ground (arith, taken_le k id t)

-- An id past the highest is free.
free_past :
    (k id : ℕ) (t : Table ChargingSession) → highest_transaction_id t < id → is_taken k id t ≡ false
free_past k id t h = ground (arith, taken_le k id t)

pub confirm_start_lem :
    (now : ℕ) (input : StartTransactionInput) (k : ℕ) (s : ChargingSession) (next : ℕ) (db : Store)
    → (id : ℕ) × (next < id)
      × (is_taken k id db.sessions ≡ false)
      × (confirm_start now input (k, s) next db ≡ (
        ok (accepted (k, started now id input s)),
        (id, save_session k (started now id input s) db),
      ))
unfolding confirm_start
confirm_start_lem now input k s next db = elim (Bool-cases (is_taken k (next + 1) db.sessions)) [
  | inr free ↦ (next + 1, omega arith, free, rw (free, confirm_start) refl)
  | inl taken ↦
      let second = seed_transaction_id (highest_transaction_id db.sessions) (next + 1) + 1 in
      let past : highest_transaction_id db.sessions < second = ground arith in
      let free = free_past k second db.sessions past in
      (second, ground arith, free, rw (taken, free, confirm_start) refl)
]

abbrev pub has_tag : ℕ → ChargingSession → Bool
has_tag id_tag s = s.id_tag == id_tag

-- A start that the tag's session waits for, from that session's charger, is always confirmed, also
-- when other processes have moved the transaction ids past the counter: the session becomes active
-- under an id that the counter had not reached and that no other session has.
pub start_confirmed :
    (now : ℕ) (input : StartTransactionInput) (k : ℕ) (s : ChargingSession) (next : ℕ) (db : Store)
    → find_one (has_tag input.id_tag) db.sessions ≡ some (k, s)
    → s.status ≡ initiating
    → s.charger_id ≡ input.charger_id
    → (id : ℕ) × (next < id)
      × (is_taken k id db.sessions ≡ false)
      × (on_start_transaction now input next db ≡ (
        ok (accepted (k, started now id input s)),
        (id, save_session k (started now id input s) db),
      ))
unfolding on_start_transaction
start_confirmed now input k s next db found waits here =
    let (id, later, free, e) = confirm_start_lem now input k s next db in
    (id, later, free, ground (arith, found, e))

-- A charger that sends again a start that was confirmed, in any later store in which the session of the
-- tag is still as the start left it, whatever else changed and wherever the counter is, gets the same
-- session under the same transaction id, and neither the counter nor the store changes.
pub start_resent :
    (now now' : ℕ) (input : StartTransactionInput) (k : ℕ) (s : ChargingSession) (next next' : ℕ)
    (db later : Store)
    → IsTable db.sessions
    → find_one (has_tag input.id_tag) db.sessions ≡ some (k, s)
    → s.status ≡ initiating
    → s.charger_id ≡ input.charger_id
    → find_one (has_tag input.id_tag) later.sessions
      ≡ find_one (has_tag input.id_tag) (on_start_transaction now input next db).1.1.sessions
    → (s' : ChargingSession) × ((on_start_transaction now input next db).0 ≡ ok (accepted (k, s')))
      × (on_start_transaction now' input next' later ≡ (ok (accepted (k, s')), (next', later)))
unfolding on_start_transaction compute_amount
start_resent now now' input k s next next' db later h found waits here kept =
    let (id, past, free, e) = start_confirmed now input k s next db found waits here in
    let s' = started now id input s in
    let tagged : has_tag input.id_tag s' ≡ true =
      (find_one_sound (has_tag input.id_tag) db.sessions k s h found).1 in
    let still : find_one (has_tag input.id_tag) later.sessions ≡ some (k, s') =
      kept
      ∙ ap
          (λ (r : Result SessionError StartOutcome × (ℕ × Store)).
            find_one (has_tag input.id_tag) r.1.1.sessions)
          e
      ∙ find_one-save (has_tag input.id_tag) k s s' db.sessions found h tagged in
    (
      s',
      ap (λ (r : Result SessionError StartOutcome × (ℕ × Store)). r.0) e,
      rw (still, on_start_transaction) refl,
    )
