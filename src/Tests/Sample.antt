-- ===== src/Tests/Sample.antt =====
-- Sample data: ids, documents and stores with their books.
use ev_charger_management_pl.Prelude.{
  ℕ, suc, ◌+◌, ◌≤◌, ◌≡◌, refl, max, none, some, false, ◌==◌, [], ◌∷◌, arith,
}
use ev_charger_management_pl.Prelude.Int.{pos}
use ev_charger_management_pl.Prelude.Table.{Table, ObjectIds, IsTable, find_by_id}
use ev_charger_management_pl.Access.{AuthUser, Role}
use ev_charger_management_pl.Models.Wallet.{
  Wallet, active, WalletTransactionType, recharge, session_debit, refund, credit, WalletTransaction,
}
use ev_charger_management_pl.Models.Payment.{
  PaymentStatus, pending, paid, wallet_recharge, razorpay, PaymentTransaction,
}
use ev_charger_management_pl.Models.Session.{completed, unpaid, ChargingSession}
use ev_charger_management_pl.Models.Charger.{ac, type2}
use ev_charger_management_pl.Store.{Store}
use ev_charger_management_pl.Wallet.{stored_balance}
use ev_charger_management_pl.Wallet.Ledger.{running, IsReconciled}
use ev_charger_management_pl.Payment.Booked.Invariant.{total_for, due, IsBooked}

-- One more than the largest id.
unfoldable pub next_id : {A : Type 0} → Table A → ℕ
next_id [] = 0
next_id ((k, a) ∷ t) = suc (max k (next_id t))

pub above : {A : Type 0} (t : Table A) (j : ℕ) → next_id t ≤ j → find_by_id j t ≡ none
unfolding next_id find_by_id
above [] j h = refl
above ((k, a) ∷ t) j h =
    let below : (k == j) ≡ false = ground arith in rw below (above t j (omega arith))

abbrev pub counted_ids : ObjectIds
counted_ids = record { fresh = λ A t. next_id t; unused = λ A t. above t (next_id t) (omega arith) }

abbrev pub admin : AuthUser
admin = record { id = 1; role = Role.super_admin; company_id = none }

abbrev pub driver_nine : AuthUser
driver_nine = record { id = 9; role = Role.driver; company_id = none }

abbrev pub wallet_with : ℕ → Wallet
wallet_with balance = record { user_id = 9; balance_paise = balance; status = active }

abbrev pub recharge_of : PaymentStatus → (order : ℕ) → PaymentTransaction
recharge_of status order = record {
  user_id = 9;
  wallet_id = 1;
  purpose = wallet_recharge;
  provider = razorpay;
  charging_session_id = none;
  company_id = none;
  amount_paise = 5_000;
  status = status;
  provider_order_id = some order;
  provider_payment_id = none;
  attempts = 0;
  next_attempt_at = none;
  failure_reason = none;
  paid_at = none;
}

abbrev pub topped_up : (payment before : ℕ) → WalletTransaction
topped_up payment before = record {
  wallet_id = 1;
  user_id = 9;
  type = recharge;
  direction = credit;
  amount_paise = 5_000;
  balance_before_paise = before;
  balance_after_paise = before + 5_000;
  payment_transaction_id = some payment;
  charging_session_id = none;
}

-- A charge of 12 kWh at 15 rupees, which is not paid yet.
abbrev pub charge : ChargingSession
charge = record {
  user_id = 9;
  vehicle_id = none;
  company_id = 2;
  station_id = 4;
  charger_id = 5;
  connector_id = 6;
  connector_number = 1;
  charger_type = ac;
  connector_type = type2;
  transaction_id = some 1_001;
  id_tag = 77;
  status = completed;
  requested_at = 1_000;
  started_at = some 2_000;
  ended_at = some 9_000;
  start_meter_wh = some (pos 0);
  last_meter_wh = some (pos 1_200_000);
  end_meter_wh = some (pos 1_200_000);
  energy_consumed_wh = 1_200_000;
  stop_reason = none;
  failure_reason = none;
  stopped_by_role = none;
  stop_note = none;
  applied_tariff_id = some 1;
  applied_price_per_kwh_paise = some 150;
  amount_paise = some 1_800;
  payment_status = unpaid;
}

-- One recharge that waits for the provider.
abbrev pub waiting : Store
waiting = record {
  wallets = (1, wallet_with 0) ∷ [];
  ledger = [];
  payments = (7, recharge_of pending 70) ∷ [];
  sessions = [];
  readings = [];
  connectors = [];
  chargers = [];
}

pub waiting-IsBooked : IsBooked waiting
unfolding IsTable total_for stored_balance running find_by_id
waiting-IsBooked = record {
  wallets = (refl, tt);
  payments = (refl, tt);
  reconciled = record { rows = tt; agrees = λ w. ground arith };
  booked = λ t k. nothing_due t k;
}
  where
    nothing_due : (t : WalletTransactionType) (k : ℕ) → 0 ≡ due t (find_by_id k waiting.payments)
    nothing_due recharge k = ground arith
    nothing_due session_debit k = ground arith
    nothing_due refund k = ground arith

-- Two recharges on the balance, and a charge to pay.
abbrev pub credited : Store
credited = record {
  wallets = (1, wallet_with 10_000) ∷ [];
  ledger = topped_up 8 5_000 ∷ topped_up 7 0 ∷ [];
  payments = (7, recharge_of paid 70) ∷ (8, recharge_of paid 80) ∷ [];
  sessions = (3, charge) ∷ [];
  readings = [];
  connectors = [];
  chargers = [];
}

pub credited-IsReconciled : IsReconciled credited
unfolding stored_balance running find_by_id
credited-IsReconciled = record {
  rows = (
    record { continues = refl; moves = refl; typed = refl },
    (record { continues = refl; moves = refl; typed = refl }, tt),
  );
  agrees = λ w. ground arith;
}

pub credited-IsBooked : IsBooked credited
unfolding IsTable total_for find_by_id
credited-IsBooked = record {
  wallets = (refl, tt);
  payments = (refl, (refl, tt));
  reconciled = credited-IsReconciled;
  booked = λ t k. matched t k;
}
  where
    matched :
        (t : WalletTransactionType) (k : ℕ)
        → total_for t k credited.ledger ≡ due t (find_by_id k credited.payments)
    matched recharge k = ground arith
    matched session_debit k = ground arith
    matched refund k = ground arith
