-- ===== src/Tests/Rest.antt =====
-- Runs of the wallet, the scopes, the arrears and the money arithmetic on sample data.
use ev_charger_management_pl.Prelude.{
  ℕ, ◌+◌, ◌-◌, ◌*◌, ◌^◌, ◌≤◌, ◌<◌, ◌≡◌, ◌↔◌, ◌⊎◌, min, refl, none, some, Bool, true, is_some, [],
  ◌∷◌, get_or, arith,
}
use ev_charger_management_pl.Prelude.Int.{pos}
use ev_charger_management_pl.Prelude.Result.{ok}
use ev_charger_management_pl.Prelude.Table.{Table, IsTable, find_by_id, find_one}
use ev_charger_management_pl.Prelude.Doubles.{doublings, half_even, to_double}
use ev_charger_management_pl.Money.{finite, calculate_amount_paise, falls_short, rounded_amount}
use ev_charger_management_pl.Money.Rounding.{amount_nearest, amount_split}
use ev_charger_management_pl.Access.{Filter, plain, satisfies, apply_read_scope}
use ev_charger_management_pl.Access.Isolation.{MaySee, scoped_query_found, scoped_query_nothing}
use ev_charger_management_pl.Models.Wallet.{Wallet, session_debit, debit}
use ev_charger_management_pl.Models.Session.{active, session_owned}
use ev_charger_management_pl.Models.Payment.{PaymentTransaction, payment_owned, paid}
use ev_charger_management_pl.Wallet.{MovementInput, apply_movement}
use ev_charger_management_pl.Wallet.Ledger.{IsReconciled}
use ev_charger_management_pl.Wallet.Movement.{Allows, movement_iff, movement-IsReconciled}
use ev_charger_management_pl.Payment.Backoff.{
  retry_delay_ms, retry_delay_formula, settlement_retry_base_ms, settlement_retry_max_ms,
}
use ev_charger_management_pl.Payment.Arrears.{
  assess_arrears, arrears_max_outstanding_paise, arrears_max_unpaid_sessions,
}
use ev_charger_management_pl.Payment.Arrears.Laws.{aged_debt, aged_count, paid_off, paying_clears}
use ev_charger_management_pl.Store.{Store}
use ev_charger_management_pl.Session.Events.{accepted, blocked, authorize_id_tag}
use ev_charger_management_pl.Session.Authorizing.{blocked_iff}
use ev_charger_management_pl.Tests.Sample.{
  driver_nine, recharge_of, charge, credited, credited-IsReconciled,
}

abbrev charge_debit : MovementInput
charge_debit = record {
  wallet_id = 1;
  user_id = 9;
  amount_paise = 1_800;
  type = session_debit;
  payment_transaction_id = some 9;
  charging_session_id = some 3;
}

movement_iff_example : (is_some (apply_movement charge_debit debit credited).0 ≡ true) ↔ (
    (w : Wallet) × (find_by_id charge_debit.wallet_id credited.wallets ≡ some w)
    × Allows debit 1_800 w)
movement_iff_example = movement_iff charge_debit debit credited (omega arith)

movement-IsReconciled_example : IsReconciled (apply_movement charge_debit debit credited).1
movement-IsReconciled_example =
    movement-IsReconciled charge_debit debit credited credited-IsReconciled refl

abbrev all_payments : PaymentTransaction → Bool
all_payments p = true

abbrev own_payments : Filter PaymentTransaction
own_payments = record { user_id = some 9; company_id = none; others = all_payments }

driver_scope : apply_read_scope driver_nine (plain all_payments) ≡ ok own_payments
unfolding apply_read_scope
driver_scope = refl

payments-IsTable : IsTable credited.payments
unfolding IsTable find_by_id
payments-IsTable = (refl, (refl, tt))

first_own : find_one (satisfies own_payments) credited.payments ≡ some (7, recharge_of paid 70)
unfolding find_one satisfies
first_own = refl

scoped_query_found_example :
    (find_by_id 7 credited.payments ≡ some (recharge_of paid 70))
    × (all_payments (recharge_of paid 70) ≡ true)
    × MaySee driver_nine.role driver_nine 9 none
scoped_query_found_example =
    scoped_query_found driver_nine all_payments own_payments credited.payments 7
      (recharge_of paid 70) payments-IsTable driver_scope first_own

abbrev foreign : PaymentTransaction
foreign = record (recharge_of paid 70) { user_id = 8 }

abbrev foreign_table : Table PaymentTransaction
foreign_table = (7, foreign) ∷ []

none_own : find_one (satisfies own_payments) foreign_table ≡ none
unfolding find_one satisfies
none_own = refl

there : find_by_id 7 foreign_table ≡ some foreign
unfolding find_by_id
there = refl

scoped_query_nothing_example : ¬ MaySee driver_nine.role driver_nine 8 none
scoped_query_nothing_example =
    scoped_query_nothing driver_nine all_payments own_payments foreign_table 7 foreign driver_scope
      none_own there refl

abbrev later : ℕ
later = 10_000_000

abbrev tagged : Store
tagged = record credited {
  sessions = (4, record charge { id_tag = 77; status = active }) ∷ credited.sessions;
}

blocked_iff_example :
    let Owing =
      (arrears_max_outstanding_paise < aged_debt later 9 tagged.sessions)
      ⊎ (arrears_max_unpaid_sessions < aged_count later 9 tagged.sessions) in
    ((authorize_id_tag later 77 tagged ≡ blocked) ↔ Owing)
    × ((authorize_id_tag later 77 tagged ≡ accepted) ↔ (¬ Owing))
unfolding find_one
blocked_iff_example =
    blocked_iff later 77 4 (record charge { id_tag = 77; status = active }) tagged refl

charge_stored : find_by_id 3 credited.sessions ≡ some charge
unfolding find_by_id
charge_stored = refl

paying_clears_example :
    let before = assess_arrears later 9 credited in
    let after = assess_arrears later 9 (paid_off 3 charge credited) in
    (after.outstanding_paise + get_or charge.amount_paise 0 ≡ before.outstanding_paise)
    × (after.unpaid_sessions + 1 ≡ before.unpaid_sessions)
paying_clears_example = paying_clears later 9 3 charge credited charge_stored refl

amount_nearest_example :
    let a = calculate_amount_paise (finite (pos 820)) (finite (pos 7_500)) in
    (2 * (820 * 7_500) ≤ 2 * a * 100_000 + 100_000)
    × (2 * a * 100_000 ≤ 2 * (820 * 7_500) + 100_000)
amount_nearest_example = amount_nearest 820 7_500

-- Two exact halves that doubles take down, and one that they take up.
halves :
    (calculate_amount_paise (finite (pos 820)) (finite (pos 7_500)) ≡ 61)
    × (calculate_amount_paise (finite (pos 1_808)) (finite (pos 3_125)) ≡ 56)
    × (calculate_amount_paise (finite (pos 5_000)) (finite (pos 1_010)) ≡ 51)
unfolding calculate_amount_paise rounded_amount falls_short to_double half_even doublings
halves = (refl, refl, refl)

amount_split_example :
    let whole = calculate_amount_paise (finite (pos (333 + 444))) (finite (pos 1_500)) in
    let parts =
      calculate_amount_paise (finite (pos 333)) (finite (pos 1_500))
      + calculate_amount_paise (finite (pos 444)) (finite (pos 1_500)) in
    (whole ≤ parts + 1) × (parts ≤ whole + 1)
amount_split_example = amount_split 333 444 1_500

retry_delay_formula_example :
    retry_delay_ms 4 ≡ min (settlement_retry_base_ms * 2 ^ (4 - 1)) settlement_retry_max_ms
retry_delay_formula_example = retry_delay_formula 4
