-- ===== src/Ocpp/Routing.antt =====
-- Which transaction a payload means when it names only a connector (`setTransaction`,
-- `clearTransaction` and the handlers of backend/src/ocpp/handlers.ts), and what a reconnecting charger
-- keeps (backend/src/ocpp/registry.ts, backend/src/ocpp/gateway.ts).
use text.Mathlib.Text.{◌==◌ as str_eq}
use ev_charger_management_pl.Prelude.{
  ℕ, ◌≡◌, refl, ap, none, some, Bool, false, ◌&&◌, ◌==◌, ==_iff, if◌then◌else◌, Option-cases, inl,
  inr, arith,
}
use ev_charger_management_pl.Prelude.Int.{ℤ}
use ev_charger_management_pl.Prelude.Result.{Result, ok, err, Result-cases}
use ev_charger_management_pl.Prelude.Table.{ObjectIds, find_by_id}
use ev_charger_management_pl.Prelude.Dict.{put, delete, find_by_id-put, find_by_id-delete}
use ev_charger_management_pl.Session.Events.{SessionError, StartOutcome}
use ev_charger_management_pl.Ocpp.Json.{number, natural, hundredths, Fields, field, string, object}
use ev_charger_management_pl.Ocpp.Registry.{
  ActiveTransaction, ChargerConnection, Registry, register, remove, set_transaction,
  clear_transaction, get_transaction_by_connector,
}
use ev_charger_management_pl.Ocpp.Gateway.{
  Gateway, JsDate, HandlerError, require_number, require_string, number_at, stored_text,
}
use ev_charger_management_pl.Ocpp.Transactions.{
  with_transaction, whole_at, named_transaction, answer_start, handle_start_transaction,
}
use ev_charger_management_pl.Ocpp.Connections.{
  AuthenticatedCharger, connected, on_connection, on_close,
}

-- What is recorded for a connector changes that connector's transaction only, and that charger's.
pub get_transaction-set_transaction :
    (o p j : ℕ) (t : ActiveTransaction) (r : Registry) (c : ChargerConnection)
    → find_by_id o r ≡ some c
    → get_transaction_by_connector p j (set_transaction o t r)
      ≡ (if o == p && t.connector_number == j then some t else get_transaction_by_connector p j r)
unfolding get_transaction_by_connector set_transaction
get_transaction-set_transaction o p j t r c here =
    let changed : ChargerConnection = record c {
      transactions = put t.connector_number t c.transactions;
    } in
    ground (
      arith,
      find_by_id-put p o changed r,
      find_by_id-put j t.connector_number t c.transactions,
      ==_iff o p,
    )

pub get_transaction-clear_transaction :
    (o p n j : ℕ) (r : Registry)
    → get_transaction_by_connector p j (clear_transaction o n r)
      ≡ (if o == p && n == j then none else get_transaction_by_connector p j r)
unfolding get_transaction_by_connector clear_transaction
get_transaction-clear_transaction o p n j r = elim (Option-cases (find_by_id o r)) [
  | inl nobody ↦ ground (arith, ==_iff o p)
  | inr (c, here) ↦
      let changed : ChargerConnection = record c { transactions = delete n c.transactions } in
      ground (
        arith,
        here,
        find_by_id-put p o changed r,
        find_by_id-delete j n c.transactions,
        ==_iff o p,
      )
]

abbrev says_accepted : Result HandlerError Fields → Bool
says_accepted (ok (field a v (field b (object (field c (string status) rest)) rest'))) =
    str_eq status "Accepted"
says_accepted _ = false

abbrev told_id : Result HandlerError Fields → ℕ
told_id (ok (field a (number (natural n)) rest)) = n
told_id _ = 0

module _ (date : JsDate) (ids : ObjectIds) (now : ℕ) (connection : ChargerConnection) where
  abbrev recorded : (n id_tag : ℕ) → ℤ → (tid : ℕ) → ActiveTransaction
  recorded n id_tag meter tid = record {
    transaction_id = tid;
    connector_number = n;
    id_tag = id_tag;
    meter_start_wh = meter;
    started_at = now;
  }

  -- The registry that an accepted start leaves.
  answer_start-accepted :
      (n : ℕ) (id_tag : ℕ) (meter : ℤ) (outcome : Result SessionError StartOutcome) (g : Gateway)
      (tid : ℕ)
      → (answer_start date ids now connection (natural n) id_tag meter outcome g).0
        ≡ ok (with_transaction tid "Accepted")
      → (answer_start date ids now connection (natural n) id_tag meter outcome g).1.connections
        ≡ set_transaction connection.ocpp_id (recorded n id_tag meter tid) g.connections
  answer_start-accepted n id_tag meter (err e) g tid h = absurd (cc (h))
  answer_start-accepted n id_tag meter (ok (StartOutcome.accepted (k, s))) g tid h =
      elim (Option-cases s.transaction_id) [
        | inl unset ↦ absurd (cc (ap says_accepted (rw unset at h)))
        | inr (given, set) ↦
            let same : given ≡ tid = ap told_id (rw set at h) in rw (set, same) refl
      ]
  answer_start-accepted n id_tag meter (ok StartOutcome.unknown_id_tag) g tid h =
      absurd (cc (ap says_accepted h))
  answer_start-accepted n id_tag meter (ok StartOutcome.wrong_charger) g tid h =
      absurd (cc (ap says_accepted h))
  answer_start-accepted n id_tag meter (ok (StartOutcome.session_already status)) g tid h =
      absurd (cc (ap says_accepted h))

  -- The registry that an accepted start leaves, for any payload.
  start-accepted :
      (payload : Fields) (g : Gateway) (n tid : ℕ)
      → require_number payload "connectorId" ≡ ok (natural n)
      → (handle_start_transaction date ids now connection payload g).0
        ≡ ok (with_transaction tid "Accepted")
      → (t : ActiveTransaction) × (t.transaction_id ≡ tid)
        × (t.connector_number ≡ n)
        × ((handle_start_transaction date ids now connection payload g).1.connections
            ≡ set_transaction connection.ocpp_id t g.connections)
  unfolding handle_start_transaction
  start-accepted payload g n tid numbered h = elim (Result-cases (require_string payload "idTag")) [
    | inl (e, untagged) ↦
        absurd (cc (ap says_accepted (rw (numbered, untagged, handle_start_transaction) at h)))
    | inr (id_tag, tagged) ↦ elim (Result-cases (require_number payload "meterStart")) [
      | inl (e, unmetered) ↦
          absurd (
            cc (ap says_accepted (rw (numbered, tagged, unmetered, handle_start_transaction) at h)))
      | inr (meter, metered) ↦
          let h' = rw (numbered, tagged, metered, handle_start_transaction) at h in
          (
            recorded n (stored_text id_tag) (hundredths meter) tid,
            refl,
            refl,
            rw (numbered, tagged, metered, handle_start_transaction)
                (answer_start-accepted n (stored_text id_tag) (hundredths meter) _ _ tid h'),
          )
    ]
  ]

  -- Once a start on a connector of a registered charger is accepted, a payload of that charger that
  -- names this connector and no transaction means the transaction that the start was told; one that names
  -- another connector means what it meant before.
  pub started_named :
      (payload report : Fields) (g : Gateway) (c : ChargerConnection) (n j tid : ℕ)
      → find_by_id connection.ocpp_id g.connections ≡ some c
      → require_number payload "connectorId" ≡ ok (natural n)
      → (handle_start_transaction date ids now connection payload g).0
        ≡ ok (with_transaction tid "Accepted")
      → number_at "transactionId" report ≡ none
      → whole_at "connectorId" report ≡ some j
      → named_transaction connection.ocpp_id report
          (handle_start_transaction date ids now connection payload g).1.connections
        ≡ (if n == j
            then some (natural tid)
            else named_transaction connection.ocpp_id report g.connections)
  unfolding named_transaction
  started_named payload report g c n j tid here numbered accepted unnamed plugged =
      let (t, told, plug, left) = start-accepted payload g n tid numbered accepted in
      ground (
        arith,
        left,
        told,
        plug,
        unnamed,
        plugged,
        get_transaction-set_transaction connection.ocpp_id connection.ocpp_id j t g.connections c
            here,
        ==_iff connection.ocpp_id connection.ocpp_id,
      )

-- A charger that reconnects keeps its new connection when the close of the socket that it replaced comes
-- in, whenever that is and whatever the registry was: nothing is removed, and no session is ended.
pub late_close :
    (now later socket old close_code : ℕ) (identity : AuthenticatedCharger) (g : Gateway)
    → (socket == old) ≡ false
    → on_close later old close_code identity (on_connection now socket identity g).1
      ≡ (on_connection now socket identity g).1
unfolding on_close on_connection register remove
late_close now later socket old close_code identity g other =
    let entered =
      find_by_id-put identity.ocpp_id identity.ocpp_id (connected now socket identity)
        g.connections in
    ground (arith, entered, ==_iff identity.ocpp_id identity.ocpp_id)
