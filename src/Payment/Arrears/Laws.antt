-- ===== src/Payment/Arrears/Laws.antt =====
-- When a driver is refused, and that paying a session brings the debt down
-- (backend/src/services/payment.service.ts).
use ev_charger_management_pl.Prelude.{
  Bool, none, ltb, ◌&&◌, ◌||◌, if◌then◌else◌, [], ◌∷◌, refl, ℕ, ◌+◌, ◌-◌, ◌≤◌, ◌≡◌, inl, inr, some,
  true, false, get_or, ◌==◌, Bool-cases, arith,
}
use ev_charger_management_pl.Prelude.Table.{Table, find_all, find_by_id, save}
use ev_charger_management_pl.Prelude.Aggregate.{sum_rows, sum_rows_mono, sum_rows-save}
use ev_charger_management_pl.Models.Session.{ChargingSession, is_unpaid, paid}
use ev_charger_management_pl.Store.{Store}
use ev_charger_management_pl.Payment.Arrears.Defs.{
  is_overdue, owes, amount_of, arrears_grace_ms, assess_arrears, get_outstanding_total,
  arrears_max_outstanding_paise, arrears_max_unpaid_sessions,
}

-- A session that its driver has left unpaid for longer than the grace.
abbrev pub is_aged : (now user_id : ℕ) → ChargingSession → Bool
is_aged now user_id s =
    s.user_id == user_id
    && is_unpaid s.payment_status
    && elim s.amount_paise [ none ↦ false | some amount ↦ ltb 0 amount ]
    && elim s.ended_at [ none ↦ false | some at ↦ ltb (at + arrears_grace_ms) now ]

-- What a driver owes for such sessions, and how many there are.
unfoldable pub aged_debt : (now user_id : ℕ) → Table ChargingSession → ℕ
aged_debt now user_id [] = 0
aged_debt now user_id ((k, s) ∷ t) =
    let rest = aged_debt now user_id t in
    if is_aged now user_id s then get_or s.amount_paise 0 + rest else rest

unfoldable pub aged_count : (now user_id : ℕ) → Table ChargingSession → ℕ
aged_count now user_id [] = 0
aged_count now user_id ((k, s) ∷ t) =
    let rest = aged_count now user_id t in if is_aged now user_id s then 1 + rest else rest

overdue-aged :
    (now user_id : ℕ) (s : ChargingSession)
    → is_overdue user_id (now - arrears_grace_ms) s ≡ is_aged now user_id s
overdue-aged now user_id s = ground arith

aged_debt_lem :
    (now user_id : ℕ) (t : Table ChargingSession)
    → sum_rows amount_of (find_all (is_overdue user_id (now - arrears_grace_ms)) t)
      ≡ aged_debt now user_id t
unfolding sum_rows find_all aged_debt
aged_debt_lem now user_id [] = refl
aged_debt_lem now user_id ((k, s) ∷ t) =
    ground (arith, overdue-aged now user_id s, aged_debt_lem now user_id t)

aged_count_lem :
    (now user_id : ℕ) (t : Table ChargingSession)
    → sum_rows (λ _. 1) (find_all (is_overdue user_id (now - arrears_grace_ms)) t)
      ≡ aged_count now user_id t
unfolding sum_rows find_all aged_count
aged_count_lem now user_id [] = refl
aged_count_lem now user_id ((k, s) ∷ t) =
    ground (arith, overdue-aged now user_id s, aged_count_lem now user_id t)

pub blocked_lem :
    (now user_id : ℕ) (db : Store)
    → (assess_arrears now user_id db).blocked ≡ (
        ltb arrears_max_outstanding_paise (aged_debt now user_id db.sessions)
        || ltb arrears_max_unpaid_sessions (aged_count now user_id db.sessions))
unfolding assess_arrears
blocked_lem now user_id db =
    ground (arith, aged_debt_lem now user_id db.sessions, aged_count_lem now user_id db.sessions)

overdue_owes :
    (user_id cutoff : ℕ) (s : ChargingSession)
    → is_overdue user_id cutoff s ≡ true
    → owes user_id s ≡ true
overdue_owes user_id cutoff s h = elim (Bool-cases (owes user_id s)) [
  | inl yes_owes ↦ yes_owes
  | inr not_owed ↦ absurd (cc (rw not_owed at h))
]

-- The debt that counts against a driver is never more than what the driver owes in all.
pub arrears-le-outstanding :
    (now user_id : ℕ) (db : Store)
    → (assess_arrears now user_id db).outstanding_paise ≤ get_outstanding_total user_id db
unfolding assess_arrears get_outstanding_total
arrears-le-outstanding now user_id db =
    sum_rows_mono (is_overdue user_id (now - arrears_grace_ms)) (owes user_id) amount_of db.sessions
      (λ s h. overdue_owes user_id (now - arrears_grace_ms) s h)

-- The sessions with one of them marked paid.
abbrev pub paid_off : ℕ → ChargingSession → Store → Store
paid_off k s db = record db { sessions = save k (record s { payment_status = paid }) db.sessions }

not_overdue :
    (user_id cutoff : ℕ) (s : ChargingSession)
    → is_overdue user_id cutoff (record s { payment_status = paid }) ≡ false
not_overdue user_id cutoff s = elim (Bool-cases (s.user_id == user_id)) [
  | inl own ↦ rw own
  | inr other ↦ rw other
]

-- Paying off one overdue session lowers the debt by its amount and the count by one.
pub paying_clears :
    (now user_id k : ℕ) (s : ChargingSession) (db : Store)
    → find_by_id k db.sessions ≡ some s
    → is_overdue user_id (now - arrears_grace_ms) s ≡ true
    → let before = assess_arrears now user_id db in
      let after = assess_arrears now user_id (paid_off k s db) in
      (after.outstanding_paise + get_or s.amount_paise 0 ≡ before.outstanding_paise)
      × (after.unpaid_sessions + 1 ≡ before.unpaid_sessions)
unfolding assess_arrears
paying_clears now user_id k s db h o =
    let p = is_overdue user_id (now - arrears_grace_ms) in
    let s' = record s { payment_status = paid } in
    let off = not_overdue user_id (now - arrears_grace_ms) s in
    (
      sum_rows-save p amount_of k s s' db.sessions h o off,
      sum_rows-save p (λ _. 1) k s s' db.sessions h o off,
    )
