-- ===== src/Payment/Arrears/Defs.antt =====
-- The arrears of backend/src/services/payment.service.ts. The reason keeps the numbers that its
-- text shows.
use ev_charger_management_pl.Prelude.{
  ℕ, ◌-◌, ◌*◌, Option, none, some, Bool, true, false, ◌&&◌, ◌||◌, ◌==◌, ltb, get_or,
}
use ev_charger_management_pl.Prelude.Table.{find_all}
use ev_charger_management_pl.Prelude.Aggregate.{sum_rows}
use ev_charger_management_pl.Models.Session.{is_unpaid, ChargingSession}
use ev_charger_management_pl.Store.{Store}

abbrev pub arrears_max_outstanding_paise : ℕ
arrears_max_outstanding_paise = 20_000

abbrev pub arrears_max_unpaid_sessions : ℕ
arrears_max_unpaid_sessions = 3

abbrev pub arrears_grace_ms : ℕ
arrears_grace_ms = 15 * 60 * 1_000

pub data ArrearsReason : Type 0 where
  owes_amount : (outstanding_paise : ℕ) → ArrearsReason
  owes_sessions : (unpaid_sessions outstanding_paise : ℕ) → ArrearsReason

pub record Arrears : Type 0 where
  pub outstanding_paise : ℕ
  pub unpaid_sessions : ℕ
  pub blocked : Bool
  pub reason : Option ArrearsReason

-- `amountPaise: { $gt: 0 }`
abbrev pub is_billed : Option ℕ → Bool
is_billed none = false
is_billed (some amount) = ltb 0 amount

-- `endedAt: { $ne: null, $lt: cutoff }`
abbrev pub ended_before : ℕ → Option ℕ → Bool
ended_before cutoff none = false
ended_before cutoff (some ended) = ltb ended cutoff

abbrev pub owes : ℕ → ChargingSession → Bool
owes user_id s = s.user_id == user_id && is_unpaid s.payment_status && is_billed s.amount_paise

abbrev pub is_overdue : (user_id cutoff : ℕ) → ChargingSession → Bool
is_overdue user_id cutoff s = owes user_id s && ended_before cutoff s.ended_at

-- `s.amountPaise ?? 0`
abbrev pub amount_of : ChargingSession → ℕ
amount_of s = get_or s.amount_paise 0

abbrev pub arrears_reason : (over_amount over_count : Bool) (owed count : ℕ) → Option ArrearsReason
arrears_reason true _ owed count = some (owes_amount owed)
arrears_reason false true owed count = some (owes_sessions count owed)
arrears_reason false false owed count = none

unfoldable pub assess_arrears : (now user_id : ℕ) → Store → Arrears
assess_arrears now user_id db =
    let cutoff = now - arrears_grace_ms in
    let overdue = find_all (is_overdue user_id cutoff) db.sessions in
    let owed = sum_rows amount_of overdue in
    let count = sum_rows (λ _. 1) overdue in
    let over_amount = ltb arrears_max_outstanding_paise owed in
    let over_count = ltb arrears_max_unpaid_sessions count in
    record {
      outstanding_paise = owed;
      unpaid_sessions = count;
      blocked = over_amount || over_count;
      reason = arrears_reason over_amount over_count owed count;
    }

unfoldable pub get_outstanding_total : ℕ → Store → ℕ
get_outstanding_total user_id db = sum_rows amount_of (find_all (owes user_id) db.sessions)
