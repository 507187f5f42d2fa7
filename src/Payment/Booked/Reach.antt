-- ===== src/Payment/Booked/Reach.antt =====
-- Every interleaving of the payment code's writes (backend/src/services/payment.service.ts), as a
-- step relation. A step is one database transaction or one write outside of one; what a caller read
-- before its transaction is a snapshot that other callers' steps may have left behind. A session is
-- debited by the amount of its payment, which Payment/Booked/Settle.antt shows it to be. A refund is
-- one step, check and transaction together: Payment/Booked/Refunded.antt shows what happens when
-- another refund of the same recharge runs between the two.
use ev_charger_management_pl.Prelude.{ℕ, ◌≡◌, refl, Option, [], true}
use ev_charger_management_pl.Prelude.Table.{Table, ObjectIds, IsTable, find_by_id}
use ev_charger_management_pl.Access.{AuthUser}
use ev_charger_management_pl.Models.Payment.{wallet_recharge, session_debit}
use ev_charger_management_pl.Models.Session.{ChargingSession, MeterReading}
use ev_charger_management_pl.Models.Charger.{Connector, Charger}
use ev_charger_management_pl.Store.{Store}
use ev_charger_management_pl.Wallet.{get_or_create_wallet, reconcile, stored_balance}
use ev_charger_management_pl.Wallet.Ledger.{running, reconcile_matches}
use ev_charger_management_pl.Payment.Provider.{ProviderOrder}
use ev_charger_management_pl.Payment.Recharge.{Row, create_recharge_order, claim_and_credit}
use ev_charger_management_pl.Payment.Settlement.{live_payment, debit_and_claim, record_shortfall}
use ev_charger_management_pl.Payment.Refund.{refund_recharge}
use ev_charger_management_pl.Payment.Booked.Invariant.{IsBooked, total_for}
use ev_charger_management_pl.Payment.Booked.Claim.{IsSnapshot, claim_and_credit-IsBooked}
use ev_charger_management_pl.Payment.Booked.Settled.{
  sessions-IsBooked, debit_and_claim-IsBooked, record_shortfall-IsBooked,
}
use ev_charger_management_pl.Payment.Booked.Refunded.{refund_recharge-IsBooked}
use ev_charger_management_pl.Payment.Booked.Ordered.{create_recharge_order-IsBooked}
use ev_charger_management_pl.Payment.Booked.Opened.{
  get_or_create_wallet-IsBooked, live_payment-IsBooked,
}

-- One write of the payment code.
pub data Step (ids : ObjectIds) : Store → Store → Type 1 where
  wallet_opened :
      (user_id : ℕ) (db : Store)
      → Step ids db (get_or_create_wallet (ids.fresh _ db.wallets) user_id db).1
  recharge_ordered :
      (user_id amount : ℕ) (answer : Option ProviderOrder) (db : Store)
      → Step ids db (create_recharge_order ids user_id amount answer db).1
  recharge_claimed :
      (now pid : ℕ) (row : Row) (db : Store)
      → IsSnapshot row db
      → row.1.purpose ≡ wallet_recharge
      → Step ids db (claim_and_credit now pid row db).1
  payment_opened :
      (session_id amount wallet_id : ℕ) (charging : ChargingSession) (db : Store)
      → Step ids db (live_payment ids session_id amount wallet_id charging db).1
  session_debited :
      (now session_id wallet_id : ℕ) (row : Row) (charging : ChargingSession) (db : Store)
      → IsSnapshot row db
      → row.1.purpose ≡ session_debit
      → Step ids db
          (debit_and_claim now session_id row.1.amount_paise wallet_id row.0 charging db).1
  shortfall_noted :
      (now amount attempts k : ℕ) (db : Store)
      → Step ids db (record_shortfall now amount attempts k db)
  recharge_refunded :
      (actor : AuthUser) (k : ℕ) (db : Store) → Step ids db (refund_recharge actor k db).1
  sessions_written :
      (t : Table ChargingSession) (db : Store) → Step ids db (record db { sessions = t })

-- The stores that some sequence of writes leads to.
pub data Reachable (ids : ObjectIds) (start : Store) : Store → Type 1 where
  here : Reachable ids start start
  after : (db db' : Store) → Reachable ids start db → Step ids db db' → Reachable ids start db'

Step-IsBooked : (ids : ObjectIds) (db db' : Store) → IsBooked db → Step ids db db' → IsBooked db'
Step-IsBooked ids _ _ h (wallet_opened user_id db) = get_or_create_wallet-IsBooked ids user_id db h
Step-IsBooked ids _ _ h (recharge_ordered user_id amount answer db) =
    create_recharge_order-IsBooked ids user_id amount answer db h
Step-IsBooked ids _ _ h (recharge_claimed now pid row db read purposed) =
    claim_and_credit-IsBooked now pid row db h read purposed
Step-IsBooked ids _ _ h (payment_opened session_id amount wallet_id charging db) =
    live_payment-IsBooked ids session_id amount wallet_id charging db h
Step-IsBooked ids _ _ h (session_debited now session_id wallet_id row charging db read purposed) =
    debit_and_claim-IsBooked now session_id wallet_id row charging db h read purposed
Step-IsBooked ids _ _ h (shortfall_noted now amount attempts k db) =
    record_shortfall-IsBooked now amount attempts k db h
Step-IsBooked ids _ _ h (recharge_refunded actor k db) = refund_recharge-IsBooked actor k db h
Step-IsBooked ids _ _ h (sessions_written t db) = sessions-IsBooked t db h

-- From a store whose books are right, no interleaving of the payment code's writes, with each
-- refund whole, leads to one whose books are wrong: what the ledger moved for each payment, by
-- kind, is what the payment's purpose and status say, and every balance is the one that its newest
-- row left.
pub Reachable-IsBooked :
    (ids : ObjectIds) (start db : Store) → IsBooked start → Reachable ids start db → IsBooked db
Reachable-IsBooked ids start _ h here = h
Reachable-IsBooked ids start _ h (after db db' before step) =
    Step-IsBooked ids db db' (Reachable-IsBooked ids start db h before) step

-- A store with no money in it yet: no wallet, no ledger row and no payment.
abbrev pub no_money :
    Table ChargingSession → Table MeterReading → Table Connector → Table Charger → Store
no_money sessions readings connectors chargers = record {
  wallets = [];
  ledger = [];
  payments = [];
  sessions = sessions;
  readings = readings;
  connectors = connectors;
  chargers = chargers;
}

pub no_money-IsBooked :
    (sessions : Table ChargingSession) (readings : Table MeterReading)
    (connectors : Table Connector) (chargers : Table Charger)
    → IsBooked (no_money sessions readings connectors chargers)
unfolding IsTable total_for stored_balance running find_by_id
no_money-IsBooked sessions readings connectors chargers = record {
  wallets = tt;
  payments = tt;
  reconciled = record { rows = tt; agrees = λ w. refl };
  booked = λ t k. refl;
}

-- Reconciliation finds no drift in any wallet, whatever interleaving of the payment code's writes,
-- with each refund whole, led to the store, when they started from one with no money in it.
pub Reachable-reconcile :
    (ids : ObjectIds) (sessions : Table ChargingSession) (readings : Table MeterReading)
    (connectors : Table Connector) (chargers : Table Charger) (db : Store) (w : ℕ)
    → Reachable ids (no_money sessions readings connectors chargers) db
    → (reconcile w db).matches ≡ true
Reachable-reconcile ids sessions readings connectors chargers db w r =
    let h =
      Reachable-IsBooked ids _ db (no_money-IsBooked sessions readings connectors chargers) r in
    reconcile_matches w db h.reconciled
