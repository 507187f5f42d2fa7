-- ===== src/Session/Stopping.antt =====
-- `stopSession` of backend/src/services/chargingSession.service.ts. The registry of connections and
-- the charger's answer are parameters; labels, log lines and notifications are left out.
use ev_charger_management_pl.Prelude.{
  ℕ, Option, none, some, Bool, true, false, not, ◌&&◌, is_none, get_or, if◌then◌else◌,
}
use ev_charger_management_pl.Prelude.Int.{pos, sub_clamped}
use ev_charger_management_pl.Prelude.Result.{
  Result, ok, err, Action, gets, require, throw_if, ◌>>=◌, ◌>>◌,
}
use ev_charger_management_pl.Prelude.Table.{Table, find_by_id}
use ev_charger_management_pl.Access.{
  AuthUser, Role, is_driver, ScopeError, plain, satisfies, apply_read_scope,
}
use ev_charger_management_pl.Models.Session.{
  SessionStatus, initiating, active, stopping, is_open, charger_disconnected, start_timeout,
  FailureReason, cancelled_by_operator, cancelled_before_confirmation, offline_at_stop,
  ChargingSession, MeterReading, Text, compute_amount, session_owned,
}
use ev_charger_management_pl.Store.{Store}
use ev_charger_management_pl.Session.Events.{save_session}
use ev_charger_management_pl.Session.Failing.{last_evidence_of_charging, broken_off}
use ev_charger_management_pl.Session.Starting.{
  ControlError, charger_rejected, session_not_found, scope_refused, reason_required, no_transaction,
  already_ended, Surroundings, StopAttribution, attributed, given_up, mark_failed, RemoteAnswer,
}

-- The note of a force stop; a driver's own reason is not kept.
abbrev attribution_of : AuthUser → Option Text → StopAttribution
attribution_of actor note = record {
  role = actor.role;
  note = if is_driver actor.role then none else note;
}

abbrev cancel_reason : Option Text → Role → FailureReason
cancel_reason none role = cancelled_before_confirmation
cancel_reason (some given) role =
    if is_driver role then cancelled_before_confirmation else cancelled_by_operator given

-- A stop that nothing can be sent for: what was delivered stays billed.
abbrev pub cut_off :
    (now : ℕ) → ℕ × ChargingSession → StopAttribution → Table MeterReading → ChargingSession
cut_off now row by readings =
    attributed (some by)
      (record (broken_off (last_evidence_of_charging now row.0 row.1 readings) charger_disconnected
        offline_at_stop row.1) {
          energy_consumed_wh =
              sub_clamped (get_or row.1.last_meter_wh (pos 0))
                (get_or row.1.start_meter_wh (pos 0));
        })

abbrev connection_of : Surroundings → ℕ → Store → Bool
connection_of env charger_id db = elim (find_by_id charger_id db.chargers) [
  | none ↦ false
  | some c ↦ env.is_connected c.ocpp_id
]

abbrev on_stop_answer :
    ℕ × ChargingSession
    → StopAttribution
    → RemoteAnswer
    → Action Store ControlError (ℕ × ChargingSession)
on_stop_answer row by RemoteAnswer.accepted db =
    let s = attributed (some by) (record row.1 { status = stopping }) in
    (ok (row.0, s), save_session row.0 s db)
on_stop_answer row by RemoteAnswer.rejected db = (err charger_rejected, db)
on_stop_answer row by RemoteAnswer.no_answer db = (err ControlError.no_answer, db)

abbrev stop_by_status :
    Surroundings
    → (now : ℕ) → ℕ × ChargingSession
    → StopAttribution
    → Option Text
    → RemoteAnswer
    → SessionStatus
    → Action Store ControlError (ℕ × ChargingSession)
stop_by_status env now row by given reply initiating db = (
  ok (
    row.0,
    compute_amount (given_up now start_timeout (cancel_reason given by.role) (some by) row.1),
  ),
  mark_failed now row start_timeout (cancel_reason given by.role) (some by) db,
)
stop_by_status env now row by given reply stopping db = (ok row, db)
stop_by_status env now row by given reply active db =
    if not (connection_of env row.1.charger_id db)
    then (
      ok (row.0, compute_amount (cut_off now row by db.readings)),
      save_session row.0 (cut_off now row by db.readings) db,
    )
    else if is_none row.1.transaction_id
    then (err no_transaction, db)
    else on_stop_answer row by reply db
stop_by_status env now row by given reply ended db = (err (already_ended ended), db)

abbrev scoped : {A : Type 0} → Result ScopeError A → Action Store ControlError A
scoped (ok a) db = (ok a, db)
scoped (err e) db = (err scope_refused, db)

-- `given` is the reason that was given, trimmed, if anything is left of it.
unfoldable pub stop_session :
    Surroundings
    → (now : ℕ) → AuthUser
    → (session_id : ℕ) → (given : Option Text) → RemoteAnswer
    → Action Store ControlError (ℕ × ChargingSession)
stop_session env now actor session_id given reply = do
  scope ← scoped (apply_read_scope actor (plain (λ (s : ChargingSession). true)))
  found ← gets (λ db. find_by_id session_id db.sessions)
  s ← require found session_not_found
  throw_if (not (satisfies scope s)) session_not_found
  throw_if (not (is_open s.status)) (already_ended s.status)
  throw_if (not (is_driver actor.role) && is_none given) reason_required
  stop_by_status env now (session_id, s) (attribution_of actor given) given reply s.status
