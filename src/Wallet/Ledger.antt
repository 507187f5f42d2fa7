-- ===== src/Wallet/Ledger.antt =====
-- What the ledger promises: every row continues the balance of the row before it, and the stored
-- balance of a wallet is the sum of its rows (backend/src/services/wallet.service.ts).
use ev_charger_management_pl.Prelude.{
  ℕ, ◌+◌, ◌≡◌, refl, true, ◌==◌, ==_iff, if◌then◌else◌, List, [], ◌∷◌, arith,
}
use ev_charger_management_pl.Prelude.Int.{pos}
use ev_charger_management_pl.Models.Wallet.{
  WalletTransactionType, recharge, session_debit, refund, LedgerDirection, credit, debit,
  WalletTransaction,
}
use ev_charger_management_pl.Store.{Store}
use ev_charger_management_pl.Wallet.Defs.{ledger_balance, stored_balance, reconcile}

-- The balance that the newest row of a wallet left.
unfoldable pub running : ℕ → List WalletTransaction → ℕ
running w [] = 0
running w (r ∷ older) = if r.wallet_id == w then r.balance_after_paise else running w older

-- The direction that each kind of movement takes: a refund takes a recharge back out.
abbrev pub direction_of : WalletTransactionType → LedgerDirection
direction_of recharge = credit
direction_of session_debit = debit
direction_of refund = debit

-- The difference that a row records.
abbrev pub Moves : LedgerDirection → (amount before after : ℕ) → Type 0
Moves credit amount before after = after ≡ before + amount
Moves debit amount before after = before ≡ after + amount

pub record IsRow (r : WalletTransaction) (older : List WalletTransaction) : Type 0 where
  pub continues : r.balance_before_paise ≡ running r.wallet_id older
  pub moves : Moves r.direction r.amount_paise r.balance_before_paise r.balance_after_paise
  pub typed : r.direction ≡ direction_of r.type

abbrev pub IsLedger : List WalletTransaction → Type 0
IsLedger [] = Unit
IsLedger (r ∷ older) = IsRow r older × IsLedger older

-- The ledger is well formed, and every stored balance is the one that its newest row left.
pub record IsReconciled (db : Store) : Type 0 where
  pub rows : IsLedger db.ledger
  pub agrees : (w : ℕ) → stored_balance w db ≡ running w db.ledger

ledger_balance-running :
    (w : ℕ) (l : List WalletTransaction) → IsLedger l → ledger_balance w l ≡ pos (running w l)
unfolding ledger_balance running
ledger_balance-running w [] h = refl
ledger_balance-running w (r ∷ older) h =
    ground (arith, ledger_balance-running w older h.1, (==_iff r.wallet_id w).0)

-- In a store with a well-formed ledger that agrees with the balances, the sum of the rows of any
-- wallet is its stored balance.
pub reconcile_matches : (w : ℕ) (db : Store) → IsReconciled db → (reconcile w db).matches ≡ true
unfolding reconcile
reconcile_matches w db h = rw (ledger_balance-running w db.ledger h.rows, h.agrees w) (ground arith)
