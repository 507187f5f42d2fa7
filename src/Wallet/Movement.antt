-- ===== src/Wallet/Movement.antt =====
-- A movement of money: when it happens, what it writes, and that the ledger keeps up with it
-- (backend/src/services/wallet.service.ts).
use ev_charger_management_pl.Prelude.{
  ℕ, ◌+◌, ◌-◌, ◌≤◌, ◌≡◌, ◌↔◌, refl, none, some, true, ◌==◌, is_some, if◌then◌else◌, ◌∷◌, arith,
  Option-cases, inl, inr,
}
use ev_charger_management_pl.Prelude.Table.{find_by_id, find_by_id-save, save}
use ev_charger_management_pl.Models.Wallet.{Wallet, active, LedgerDirection, credit, debit}
use ev_charger_management_pl.Store.{Store}
use ev_charger_management_pl.Wallet.Defs.{
  MovementInput, updated_wallet, balance_before, apply_movement, stored_balance,
}
use ev_charger_management_pl.Wallet.Ledger.{running, direction_of, Moves, IsReconciled}

-- What a wallet must be for a movement to go through: active and, for a debit, covered.
abbrev pub Allows : LedgerDirection → ℕ → Wallet → Type 0
Allows credit amount w = w.status ≡ active
Allows debit amount w = (w.status ≡ active) × (amount ≤ w.balance_paise)

-- The balance that a movement leaves.
abbrev pub moved : LedgerDirection → (balance amount : ℕ) → ℕ
moved credit balance amount = balance + amount
moved debit balance amount = balance - amount

-- A movement that is refused writes nothing.
pub movement_refused :
    (input : MovementInput) (d : LedgerDirection) (db : Store)
    → (apply_movement input d db).0 ≡ none
    → (apply_movement input d db).1 ≡ db
unfolding apply_movement
movement_refused input d db h = ground arith

-- The update of the wallet happens exactly when the wallet exists and allows it.
pub updated_wallet_iff :
    (input : MovementInput) (d : LedgerDirection) (db : Store) (w : Wallet)
    → find_by_id input.wallet_id db.wallets ≡ some w
    → (is_some (updated_wallet input d db.wallets) ≡ true) ↔ Allows d input.amount_paise w
unfolding updated_wallet
updated_wallet_iff input credit db w h = (λ e. ground arith, λ e. ground arith)
updated_wallet_iff input debit db w h = (λ e. ground arith, λ e. ground arith)

-- The wallet that an update starts from.
pub updated_wallet_from :
    (input : MovementInput) (d : LedgerDirection) (db : Store) (u : Wallet)
    → updated_wallet input d db.wallets ≡ some u
    → (w : Wallet) × (find_by_id input.wallet_id db.wallets ≡ some w)
      × Allows d input.amount_paise w
      × (u ≡ record w { balance_paise = moved d w.balance_paise input.amount_paise })
unfolding updated_wallet
updated_wallet_from input credit db u h =
    elim (Option-cases (find_by_id input.wallet_id db.wallets)) [
      | inl missing ↦ absurd (ground arith)
      | inr (w, stored) ↦ (w, stored, ground arith, ground arith)
    ]
updated_wallet_from input debit db u h =
    elim (Option-cases (find_by_id input.wallet_id db.wallets)) [
      | inl missing ↦ absurd (ground arith)
      | inr (w, stored) ↦ (w, stored, ground arith, ground arith)
    ]

-- The store after a movement that goes through.
abbrev pub after_movement : MovementInput → LedgerDirection → Wallet → Store → Store
after_movement input d w db = record db {
  wallets =
      save input.wallet_id (record w { balance_paise = moved d w.balance_paise input.amount_paise })
        db.wallets;
  ledger =
      (record {
        wallet_id = input.wallet_id;
        user_id = input.user_id;
        type = input.type;
        direction = d;
        amount_paise = input.amount_paise;
        balance_before_paise = w.balance_paise;
        balance_after_paise = moved d w.balance_paise input.amount_paise;
        payment_transaction_id = input.payment_transaction_id;
        charging_session_id = input.charging_session_id;
      })
      ∷ db.ledger;
}

balance_before-moved :
    (input : MovementInput) (d : LedgerDirection) (w : Wallet)
    → Allows d input.amount_paise w
    → balance_before input d (moved d w.balance_paise input.amount_paise) ≡ w.balance_paise
unfolding balance_before
balance_before-moved input credit w h = omega arith
balance_before-moved input debit w h = omega arith

-- A movement that goes through changes one balance by its amount and adds one row, which names the
-- balance before and after.
pub movement_effect :
    (input : MovementInput) (d : LedgerDirection) (db : Store)
    → is_some (apply_movement input d db).0 ≡ true
    → (w : Wallet) × (find_by_id input.wallet_id db.wallets ≡ some w)
      × Allows d input.amount_paise w
      × ((apply_movement input d db).1 ≡ after_movement input d w db)
unfolding apply_movement
movement_effect input d db h = elim (Option-cases (updated_wallet input d db.wallets)) [
  | inl refused ↦ absurd (ground arith)
  | inr (u, done) ↦
      let (w, stored, allowed, e) = updated_wallet_from input d db u done in
      (w, stored, allowed, ground (arith, e, balance_before-moved input d w allowed))
]

-- For a positive amount, a movement goes through exactly when the wallet exists and allows it: it is
-- active and, for a debit, its balance covers the amount.
pub movement_iff :
    (input : MovementInput) (d : LedgerDirection) (db : Store)
    → 1 ≤ input.amount_paise
    → (is_some (apply_movement input d db).0 ≡ true) ↔ (
        (w : Wallet) × (find_by_id input.wallet_id db.wallets ≡ some w)
        × Allows d input.amount_paise w)
unfolding apply_movement
movement_iff input d db positive = (
  λ e. let (w, stored, allowed, _) = movement_effect input d db e in (w, stored, allowed),
  λ (w, stored, allowed). ground (arith, (updated_wallet_iff input d db w stored).1 allowed),
)

-- What a movement leaves of each balance.
pub stored_balance-after :
    (j : ℕ) (input : MovementInput) (d : LedgerDirection) (db : Store) (w : Wallet)
    → find_by_id input.wallet_id db.wallets ≡ some w
    → stored_balance j (after_movement input d w db) ≡ (
        if input.wallet_id == j
        then moved d w.balance_paise input.amount_paise
        else stored_balance j db)
unfolding stored_balance
stored_balance-after j input d db w h = ground (
  arith,
  find_by_id-save j input.wallet_id
      (record w { balance_paise = moved d w.balance_paise input.amount_paise }) db.wallets,
)

pub stored_balance-found :
    (k : ℕ) (db : Store) (w : Wallet)
    → find_by_id k db.wallets ≡ some w
    → stored_balance k db ≡ w.balance_paise
unfolding stored_balance
stored_balance-found k db w h = ground arith

Moves-moved :
    (d : LedgerDirection) (amount : ℕ) (w : Wallet)
    → Allows d amount w
    → Moves d amount w.balance_paise (moved d w.balance_paise amount)
Moves-moved credit amount w h = refl
Moves-moved debit amount w h = omega arith

after_movement-IsReconciled :
    (input : MovementInput) (d : LedgerDirection) (db : Store) (w : Wallet)
    → IsReconciled db
    → d ≡ direction_of input.type
    → find_by_id input.wallet_id db.wallets ≡ some w
    → Allows d input.amount_paise w
    → IsReconciled (after_movement input d w db)
unfolding running
after_movement-IsReconciled input d db w h e stored allowed = record {
  rows = (
    record {
      continues =
          omega (arith, h.agrees input.wallet_id, stored_balance-found input.wallet_id db w stored);
      moves = Moves-moved d input.amount_paise w allowed;
      typed = e;
    },
    h.rows,
  );
  agrees = λ j. rw (stored_balance-after j input d db w stored) (ground (arith, h.agrees j));
}

-- A movement of a kind in its own direction keeps the ledger well formed and in agreement with
-- every balance, whether it goes through or is refused.
pub movement-IsReconciled :
    (input : MovementInput) (d : LedgerDirection) (db : Store)
    → IsReconciled db
    → d ≡ direction_of input.type
    → IsReconciled (apply_movement input d db).1
movement-IsReconciled input d db h e = elim (Option-cases (apply_movement input d db).0) [
  | inl refused ↦ rw (movement_refused input d db refused) h
  | inr (r, done) ↦
      let (w, stored, allowed, t) = movement_effect input d db (rw done refl) in
      rw t (after_movement-IsReconciled input d db w h e stored allowed)
]
