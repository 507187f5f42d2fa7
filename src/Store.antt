-- ===== src/Store.antt =====
-- The database: one table for each collection that the modelled code touches. The ledger is only
-- ever appended to, so it is a list, the newest row first.
use ev_charger_management_pl.Prelude.{List}
use ev_charger_management_pl.Prelude.Table.{Table}
use ev_charger_management_pl.Models.Wallet.{Wallet, WalletTransaction}
use ev_charger_management_pl.Models.Payment.{PaymentTransaction}
use ev_charger_management_pl.Models.Session.{ChargingSession, MeterReading}
use ev_charger_management_pl.Models.Charger.{Charger, Connector}

pub record Store : Type 0 where
  pub wallets : Table Wallet
  pub ledger : List WalletTransaction
  pub payments : Table PaymentTransaction
  pub sessions : Table ChargingSession
  pub readings : Table MeterReading
  pub connectors : Table Connector
  pub chargers : Table Charger
