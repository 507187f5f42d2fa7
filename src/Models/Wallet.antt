-- ===== src/Models/Wallet.antt =====
-- Wallets and their ledger: backend/src/models/wallet.model.ts,
-- backend/src/models/walletTransaction.model.ts and the types of backend/src/constants/wallet.ts.
-- Amounts are whole paise. The description of a ledger row is display text and is left out, as are
-- the two timestamps that the database keeps by itself.
use ev_charger_management_pl.Prelude.{ℕ, Option, Bool, true, false}

-- `WALLET_STATUSES`
pub data WalletStatus : Type 0 where
  active blocked : WalletStatus

abbrev pub is_active : WalletStatus → Bool
is_active active = true
is_active blocked = false

pub record Wallet : Type 0 where
  pub user_id : ℕ
  pub balance_paise : ℕ
  pub status : WalletStatus

-- `WALLET_TRANSACTION_TYPES`
pub data WalletTransactionType : Type 0 where
  recharge session_debit refund : WalletTransactionType

-- `LEDGER_DIRECTIONS`
pub data LedgerDirection : Type 0 where
  credit debit : LedgerDirection

pub record WalletTransaction : Type 0 where
  pub wallet_id : ℕ
  pub user_id : ℕ
  pub type : WalletTransactionType
  pub direction : LedgerDirection
  pub amount_paise : ℕ
  pub balance_before_paise : ℕ
  pub balance_after_paise : ℕ
  pub payment_transaction_id : Option ℕ
  pub charging_session_id : Option ℕ
