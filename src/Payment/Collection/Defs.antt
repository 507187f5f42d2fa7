-- ===== src/Payment/Collection/Defs.antt =====
-- The loops of backend/src/services/payment.service.ts over sessions that are not paid.
use ev_charger_management_pl.Prelude.{
  ℕ, ◌+◌, ◌-◌, Option, none, some, Bool, true, not, ◌&&◌, leb, ltb, is_none, is_some, is_ref,
  if◌then◌else◌, List, [], ◌∷◌, ◌++◌, length,
}
use ev_charger_management_pl.Prelude.Table.{Table, ObjectIds, find_one, find_all}
use ev_charger_management_pl.Prelude.Order.{null_first, sort_by, limit}
use ev_charger_management_pl.Models.Payment.{is_pending, is_wallet_recharge, PaymentTransaction}
use ev_charger_management_pl.Models.Session.{is_unpaid, ChargingSession}
use ev_charger_management_pl.Store.{Store}
use ev_charger_management_pl.Payment.Settlement.{paid, pending, skipped, settle_session}
use ev_charger_management_pl.Payment.Arrears.{is_billed, owes}

abbrev pub settlement_sweep_batch : ℕ
settlement_sweep_batch = 25

abbrev pub ids_of : {A : Type 0} → Table A → List ℕ
ids_of [] = []
ids_of ((k, a) ∷ t) = k ∷ ids_of t

-- The loop of a top-up: how many were settled; the first shortfall ends it.
unfoldable pub settle_until_short : ObjectIds → ℕ → List ℕ → Store → ℕ × Store
settle_until_short ids now [] db = (0, db)
settle_until_short ids now (session_id ∷ rest) db =
    let (result, db') = settle_session ids now session_id db in
    elim result [
      | paid ↦ (let (settled, db'') = settle_until_short ids now rest db' in (settled + 1, db''))
      | pending ↦ (0, db')
      | skipped _ ↦ settle_until_short ids now rest db'
    ]

unfoldable pub settle_outstanding_for_user : ObjectIds → (now user_id : ℕ) → Store → ℕ × Store
settle_outstanding_for_user ids now user_id db =
    settle_until_short ids now
      (ids_of (
        sort_by (λ (s : ChargingSession). null_first s.ended_at)
          (find_all (owes user_id) db.sessions)))
      db

-- No payment record at all names the session: its `$lookup` is empty.
abbrev pub has_no_payment : Table PaymentTransaction → ℕ → Bool
has_no_payment payments session_id =
    is_none
      (find_one (λ (p : PaymentTransaction). is_ref p.charging_session_id session_id) payments)

unfoldable pub without_payment :
    Table PaymentTransaction → Table ChargingSession → Table ChargingSession
without_payment payments [] = []
without_payment payments ((k, s) ∷ t) =
    if has_no_payment payments k
    then (k, s) ∷ without_payment payments t
    else without_payment payments t

unfoldable pub orphans : ℕ → Store → Table ChargingSession
orphans batch db = limit batch (
    sort_by (λ (s : ChargingSession). null_first s.ended_at)
      (without_payment db.payments (
        find_all (λ (s : ChargingSession). is_unpaid s.payment_status && is_billed s.amount_paise)
          db.sessions)))

-- `nextAttemptAt: null` or `nextAttemptAt: { $lte: now }`
abbrev pub is_due : ℕ → Option ℕ → Bool
is_due now none = true
is_due now (some at) = leb at now

abbrev pub is_retry : ℕ → PaymentTransaction → Bool
is_retry now p =
    not (is_wallet_recharge p.purpose)
    && is_pending p.status
    && is_some p.charging_session_id
    && is_due now p.next_attempt_at

abbrev pub sessions_of : Table PaymentTransaction → List ℕ
sessions_of [] = []
sessions_of ((k, p) ∷ t) = elim p.charging_session_id [
  | none ↦ sessions_of t
  | some s ↦ s ∷ sessions_of t
]

-- Retries that are due, with what the orphans left of the batch.
unfoldable pub retries : (now remaining : ℕ) → Store → List ℕ
retries now remaining db =
    if ltb 0 remaining
    then sessions_of (
        limit remaining (
          sort_by (λ (p : PaymentTransaction). null_first p.next_attempt_at)
            (find_all (is_retry now) db.payments)))
    else []

unfoldable pub sweep_ids : (now batch : ℕ) → Store → List ℕ
sweep_ids now batch db =
    let first = ids_of (orphans batch db) in first ++ retries now (batch - length first) db

-- The loop of a sweep: a shortfall does not end it.
unfoldable pub settle_each : ObjectIds → ℕ → List ℕ → Store → ℕ × Store
settle_each ids now [] db = (0, db)
settle_each ids now (session_id ∷ rest) db =
    let (result, db') = settle_session ids now session_id db in
    let (settled, db'') = settle_each ids now rest db' in
    elim result [
      | paid ↦ (settled + 1, db'')
      | pending ↦ (settled, db'')
      | skipped _ ↦ (settled, db'')
    ]

unfoldable pub sweep_unsettled_sessions : ObjectIds → (now batch : ℕ) → Store → ℕ × Store
sweep_unsettled_sessions ids now batch db = settle_each ids now (sweep_ids now batch db) db
