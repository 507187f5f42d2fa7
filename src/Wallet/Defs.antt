-- ===== src/Wallet/Defs.antt =====
-- The operations of backend/src/services/wallet.service.ts.
use ev_charger_management_pl.Prelude.{
  ℕ, ◌+◌, ◌-◌, Option, none, some, Bool, ◌&&◌, ◌==◌, leb, if◌then◌else◌, List, [], ◌∷◌,
}
use ev_charger_management_pl.Prelude.Int.{ℤ, pos, pos_part, neg_part, sub_ℕ, eq_ℤ}
use ev_charger_management_pl.Prelude.Table.{Table, find_by_id, find_one, save, create}
use ev_charger_management_pl.Models.Wallet.{
  Wallet, active, is_active, WalletTransactionType, LedgerDirection, credit, debit,
  WalletTransaction,
}
use ev_charger_management_pl.Store.{Store}

-- The caller's wallet and its id. `fresh` is the id that an upsert would make up.
unfoldable pub get_or_create_wallet : ℕ → ℕ → Store → (ℕ × Wallet) × Store
get_or_create_wallet fresh user_id db =
    let opened : Wallet = record { user_id = user_id; balance_paise = 0; status = active } in
    elim (find_one (λ (w : Wallet). w.user_id == user_id) db.wallets) [
      | some row ↦ (row, db)
      | none ↦ ((fresh, opened), record db { wallets = create fresh opened db.wallets })
    ]

pub record MovementInput : Type 0 where
  pub wallet_id : ℕ
  pub user_id : ℕ
  pub amount_paise : ℕ
  pub type : WalletTransactionType
  pub payment_transaction_id : Option ℕ
  pub charging_session_id : Option ℕ

-- The wallet after the debit, or nothing when it is missing, blocked or short.
unfoldable pub atomic_debit : ℕ → ℕ → Table Wallet → Option Wallet
atomic_debit wallet_id amount_paise wallets = elim (find_by_id wallet_id wallets) [
  | none ↦ none
  | some w ↦
      if is_active w.status && leb amount_paise w.balance_paise
      then some (record w { balance_paise = w.balance_paise - amount_paise })
      else none
]

unfoldable pub atomic_credit : ℕ → ℕ → Table Wallet → Option Wallet
atomic_credit wallet_id amount_paise wallets = elim (find_by_id wallet_id wallets) [
  | none ↦ none
  | some w ↦
      if is_active w.status
      then some (record w { balance_paise = w.balance_paise + amount_paise })
      else none
]

pub record MovementResult : Type 0 where
  pub balance_before_paise : ℕ
  pub balance_after_paise : ℕ

unfoldable pub updated_wallet : MovementInput → LedgerDirection → Table Wallet → Option Wallet
unfolding atomic_debit atomic_credit
updated_wallet input debit wallets = atomic_debit input.wallet_id input.amount_paise wallets
updated_wallet input credit wallets = atomic_credit input.wallet_id input.amount_paise wallets

unfoldable pub balance_before : MovementInput → LedgerDirection → ℕ → ℕ
balance_before input debit after = after + input.amount_paise
balance_before input credit after = after - input.amount_paise

-- The amount is positive: the schema of a ledger row refuses 0, and no caller moves nothing.
unfoldable pub apply_movement :
    MovementInput → LedgerDirection → Store → Option MovementResult × Store
apply_movement input direction db = elim (updated_wallet input direction db.wallets) [
  | none ↦ (none, db)
  | some updated ↦
      let before = balance_before input direction updated.balance_paise in
      (
        some
            (record { balance_before_paise = before; balance_after_paise = updated.balance_paise }),
        record db {
          wallets = save input.wallet_id updated db.wallets;
          ledger =
              (record {
                wallet_id = input.wallet_id;
                user_id = input.user_id;
                type = input.type;
                direction = direction;
                amount_paise = input.amount_paise;
                balance_before_paise = before;
                balance_after_paise = updated.balance_paise;
                payment_transaction_id = input.payment_transaction_id;
                charging_session_id = input.charging_session_id;
              })
              ∷ db.ledger;
        },
      )
]

-- `sum + (entry.direction === 'credit' ? entry.amountPaise : -entry.amountPaise)`
abbrev pub add_entry : ℤ → LedgerDirection → ℕ → ℤ
add_entry sum credit amount = sub_ℕ (pos_part sum + amount) (neg_part sum)
add_entry sum debit amount = sub_ℕ (pos_part sum) (neg_part sum + amount)

-- The sum of one wallet's rows, from the oldest on.
unfoldable pub ledger_balance : ℕ → List WalletTransaction → ℤ
ledger_balance wallet_id [] = pos 0
ledger_balance wallet_id (entry ∷ older) =
    let sum = ledger_balance wallet_id older in
    if entry.wallet_id == wallet_id then add_entry sum entry.direction entry.amount_paise else sum

pub record Reconciliation : Type 0 where
  pub ledger_balance_paise : ℤ
  pub stored_balance_paise : ℕ
  pub matches : Bool

-- `wallet?.balancePaise ?? 0`
unfoldable pub stored_balance : ℕ → Store → ℕ
stored_balance wallet_id db = elim (find_by_id wallet_id db.wallets) [
  | none ↦ 0
  | some w ↦ w.balance_paise
]

unfoldable pub reconcile : ℕ → Store → Reconciliation
reconcile wallet_id db = record {
  ledger_balance_paise = ledger_balance wallet_id db.ledger;
  stored_balance_paise = stored_balance wallet_id db;
  matches = eq_ℤ (ledger_balance wallet_id db.ledger) (pos (stored_balance wallet_id db));
}
