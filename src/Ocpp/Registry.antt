-- ===== src/Ocpp/Registry.antt =====
-- The connections of this process: backend/src/ocpp/registry.ts. A socket is a number, its identity.
-- The counter of transaction ids is a number that its users pass on (Session/Events.antt).
use ev_charger_management_pl.Prelude.{
  ℕ, ◌+◌, Option, none, some, Bool, true, false, not, ◌==◌, if◌then◌else◌, List, [], ◌∷◌,
}
use ev_charger_management_pl.Prelude.Int.{ℤ}
use ev_charger_management_pl.Prelude.Table.{Table, find_by_id}
use ev_charger_management_pl.Prelude.Dict.{put, delete, values}

pub record ActiveTransaction : Type 0 where
  pub transaction_id : ℕ
  pub connector_number : ℕ
  pub id_tag : ℕ
  pub meter_start_wh : ℤ
  pub started_at : ℕ

pub record ChargerConnection : Type 0 where
  pub ocpp_id : ℕ
  pub charger_id : ℕ
  pub company_id : ℕ
  pub socket : ℕ
  pub connected_at : ℕ
  pub last_heartbeat_at : ℕ
  pub transactions : Table ActiveTransaction

-- `connections`, by the OCPP identity.
abbrev pub Registry : Type 0
Registry = Table ChargerConnection

-- `nextTransactionId += 1`
abbrev pub allocate_transaction_id : (next : ℕ) → ℕ
allocate_transaction_id next = next + 1

unfoldable pub register : ChargerConnection → Registry → Option ChargerConnection × Registry
register connection r = (find_by_id connection.ocpp_id r, put connection.ocpp_id connection r)

-- The socket, where one is given, must be the one that is registered.
unfoldable pub remove : (ocpp_id : ℕ) → (socket : Option ℕ) → Registry → Bool × Registry
remove ocpp_id socket r = elim (find_by_id ocpp_id r) [
  | none ↦ (false, r)
  | some existing ↦
      if elim socket [ none ↦ false | some given ↦ not (existing.socket == given) ]
      then (false, r)
      else (true, delete ocpp_id r)
]

-- What a write to a registered connection leaves; there is none for an identity that is not registered.
abbrev pub on_connected :
    (ocpp_id : ℕ) → (ChargerConnection → ChargerConnection) → Registry → Registry
on_connected ocpp_id change r = elim (find_by_id ocpp_id r) [
  | none ↦ r
  | some connection ↦ put ocpp_id (change connection) r
]

unfoldable pub touch_heartbeat : (now ocpp_id : ℕ) → Registry → Registry
touch_heartbeat now ocpp_id r = on_connected ocpp_id (λ c. record c { last_heartbeat_at = now }) r

unfoldable pub set_transaction : (ocpp_id : ℕ) → ActiveTransaction → Registry → Registry
set_transaction ocpp_id t r =
    on_connected ocpp_id (λ c. record c { transactions = put t.connector_number t c.transactions })
      r

unfoldable pub clear_transaction : (ocpp_id connector_number : ℕ) → Registry → Registry
clear_transaction ocpp_id connector_number r =
    on_connected ocpp_id (λ c. record c { transactions = delete connector_number c.transactions }) r

unfoldable pub get_transaction_by_connector :
    (ocpp_id connector_number : ℕ) → Registry → Option ActiveTransaction
get_transaction_by_connector ocpp_id connector_number r = elim (find_by_id ocpp_id r) [
  | none ↦ none
  | some c ↦ find_by_id connector_number c.transactions
]

-- `for (const transaction of transactions.values())`
unfoldable pub with_id : (transaction_id : ℕ) → Table ActiveTransaction → Option ActiveTransaction
with_id transaction_id [] = none
with_id transaction_id ((n, t) ∷ rest) =
    if t.transaction_id == transaction_id then some t else with_id transaction_id rest

unfoldable pub find_transaction_by_id :
    (ocpp_id transaction_id : ℕ) → Registry → Option ActiveTransaction
find_transaction_by_id ocpp_id transaction_id r = elim (find_by_id ocpp_id r) [
  | none ↦ none
  | some c ↦ with_id transaction_id c.transactions
]

unfoldable pub list_transactions : (ocpp_id : ℕ) → Registry → List ActiveTransaction
list_transactions ocpp_id r = elim (find_by_id ocpp_id r) [
  | none ↦ []
  | some c ↦ values c.transactions
]

-- `all`
abbrev pub all_connections : Registry → List ChargerConnection
all_connections r = values r
