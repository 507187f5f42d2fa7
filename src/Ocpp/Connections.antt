-- ===== src/Ocpp/Connections.antt =====
-- The life of a charger's socket: `onConnection`, its close, `sweepStaleConnections`,
-- `reconcileOnlineStateAtBoot` and `shutdownOcppGateway` of backend/src/ocpp/gateway.ts. The token of a
-- charger is checked before its socket is accepted; the writes that a closed socket sets off are one
-- step here.
use ev_charger_management_pl.Prelude.{
  ℕ, ◌-◌, Option, some, false, ltb, if◌then◌else◌, List, [], ◌∷◌,
}
use ev_charger_management_pl.Prelude.Table.{Table, find_all, update_many}
use ev_charger_management_pl.Models.Charger.{Charger}
use ev_charger_management_pl.Models.Session.{
  FailureReason, charger_disconnected, disconnected, stopped_sending_heartbeats, backend_restarted,
}
use ev_charger_management_pl.Store.{Store}
use ev_charger_management_pl.Session.Events.{highest_transaction_id, seed_transaction_id}
use ev_charger_management_pl.Session.Failing.{fail_open_sessions_for_charger}
use ev_charger_management_pl.Ocpp.Registry.{ChargerConnection, register, remove, all_connections}
use ev_charger_management_pl.Ocpp.Commands.{Calls, cancel_pending}
use ev_charger_management_pl.Ocpp.Gateway.{Gateway}
use ev_charger_management_pl.Ocpp.Status.{update_charger}

-- Whose socket it is, once its token is verified.
pub record AuthenticatedCharger : Type 0 where
  pub ocpp_id : ℕ
  pub charger_id : ℕ
  pub company_id : ℕ

abbrev pub connected : (now socket : ℕ) → AuthenticatedCharger → ChargerConnection
connected now socket identity = record {
  ocpp_id = identity.ocpp_id;
  charger_id = identity.charger_id;
  company_id = identity.company_id;
  socket = socket;
  connected_at = now;
  last_heartbeat_at = now;
  transactions = [];
}

-- The connection whose socket is closed because it is superseded, and the state.
unfoldable pub on_connection :
    (now socket : ℕ) → AuthenticatedCharger → Gateway → Option ChargerConnection × Gateway
on_connection now socket identity g =
    let (superseded, connections) = register (connected now socket identity) g.connections in
    (superseded, record g { connections = connections })

abbrev offline : Charger → Charger
offline c = record c { is_online = false }

-- A charger that cannot be reached is offline, and what it was charging has ended.
abbrev pub lose_charger : (now charger_id : ℕ) → FailureReason → Store → Store
lose_charger now charger_id why db =
    (fail_open_sessions_for_charger now charger_id charger_disconnected why
      (update_charger charger_id offline db)).1

-- The `close` event of a socket.
unfoldable pub on_close : (now socket close_code : ℕ) → AuthenticatedCharger → Gateway → Gateway
on_close now socket close_code identity g =
    let (removed, connections) = remove identity.ocpp_id (some socket) g.connections in
    if removed
    then record g {
      connections = connections;
      db = lose_charger now identity.charger_id (disconnected close_code) g.db;
    }
    else g

-- `OFFLINE_AFTER_MS` is `offline_after_ms`, from the environment.
unfoldable pub lose_silent : (offline_after_ms now : ℕ) → List ChargerConnection → Gateway → Gateway
lose_silent offline_after_ms now [] g = g
lose_silent offline_after_ms now (c ∷ rest) g = lose_silent offline_after_ms now rest (
    if ltb c.last_heartbeat_at (now - offline_after_ms)
    then record g {
      connections = (remove c.ocpp_id (some c.socket) g.connections).1;
      db = lose_charger now c.charger_id stopped_sending_heartbeats g.db;
    }
    else g)

unfoldable pub sweep_stale_connections : (offline_after_ms now : ℕ) → Gateway → Gateway
sweep_stale_connections offline_after_ms now g =
    lose_silent offline_after_ms now (all_connections g.connections) g

unfoldable pub fail_each : (now : ℕ) → Table Charger → Store → Store
fail_each now [] db = db
fail_each now ((k, c) ∷ stale) db =
    fail_each now stale
      (fail_open_sessions_for_charger now k charger_disconnected backend_restarted db).1

unfoldable pub reconcile_online_state_at_boot : (now : ℕ) → Store → Store
reconcile_online_state_at_boot now db =
    let stale = find_all (λ (c : Charger). c.is_online) db.chargers in
    fail_each now stale
      (record db { chargers = update_many (λ (c : Charger). c.is_online) offline db.chargers })

-- A gateway that starts has no connection.
unfoldable pub attach_ocpp_gateway : (now next : ℕ) → Store → Gateway
attach_ocpp_gateway now next db = record {
  connections = [];
  next_transaction_id = seed_transaction_id (highest_transaction_id db.sessions) next;
  db = reconcile_online_state_at_boot now db;
}

unfoldable pub shutdown_ocpp_gateway : Gateway → Calls → Gateway × Calls
shutdown_ocpp_gateway g c =
    (record g { connections = [] }, cancel_pending "Gateway shutting down" c)
