-- ===== src/Lib.antt =====
-- The backend of an EV charging platform: a driver starts a charge from an app, the charger reports
-- meter readings over OCPP, and when the charge ends its energy is priced and taken from the
-- driver's wallet, which the driver tops up through a payment provider.
--
-- The parts and where they are modelled:
--
-- - Money.antt, Money/Rounding.antt: `calculateAmountPaise` of backend/src/utils/money.ts.
-- - Access.antt, Access/Isolation.antt: the roles of backend/src/constants/roles.ts and the query
--   scopes of backend/src/utils/companyScope.ts and backend/src/utils/ownerScope.ts.
-- - Models.antt and below: the documents of backend/src/models, with the pricing hook of
--   backend/src/models/chargingSession.model.ts. Store.antt: the database, one table each.
-- - Wallet.antt and below: backend/src/services/wallet.service.ts. Wallet/Defs.antt has its
--   operations, Wallet/Ledger.antt what the ledger promises, Wallet/Movement.antt what one movement
--   of money does.
-- - Payment/Provider.antt: the signatures of backend/src/payments/razorpay.ts.
-- - Payment/Recharge.antt, Settlement.antt, Arrears.antt, Collection.antt, Refund.antt and
--   Backoff.antt: backend/src/services/payment.service.ts. Payment/Booked.antt and below: the
--   invariant that ties the ledger to the payment records, over every interleaving of the writes.
-- - Session.antt and below: backend/src/services/sessionEvents.service.ts, the starts and stops of
--   backend/src/services/chargingSession.service.ts, backend/src/utils/sessionEnd.ts and the
--   transaction counter of backend/src/ocpp/registry.ts.
-- - Complaint.antt and below: backend/src/services/complaint.service.ts. Complaint/Lifecycle.antt,
--   Service.antt, Triage.antt and Filing.antt have its operations, Complaint/Trail.antt the rules
--   as they are meant, Complaint/Steps.antt the relation of every sequence of operations.
-- - Ocpp.antt and below: backend/src/ocpp. Ocpp/Messages.antt is messages.ts, Ocpp/Registry.antt
--   registry.ts, Ocpp/Commands.antt commands.ts, Ocpp/Status.antt and Ocpp/Transactions.antt the
--   handlers of handlers.ts, Ocpp/Frames.antt and Ocpp/Connections.antt gateway.ts. A handler works
--   on the database through the operations of Session.antt.
-- - Tariffs.antt and below: backend/src/services/tariff.service.ts. Tariffs/Service.antt has its
--   operations, Tariffs/Steps.antt the relation of every sequence of them.
-- - Fleet.antt and below: backend/src/services/charger.service.ts and
--   backend/src/services/connector.service.ts.
-- - Analytics.antt and below: backend/src/utils/dateRange.ts.
-- - Prelude.antt and below: Boolean tests, integers, results with errors, and tables with the
--   queries and updates that stand for the database's. Tests.antt and below: runs on sample data.
--
-- How the code is written here. A function that reads and writes the database takes the store and
-- returns it with its result; a thrown error is a value. A transaction is one step that an error
-- takes back whole. A function of the payment code that awaits between a read and a write is given
-- as its parts, so that other callers' steps can stand between them; Payment/Booked/Reach.antt is
-- the relation of those steps. In the other parts a call is one step, as if no other call came
-- between its reads and its writes. A document that a caller read earlier is a snapshot, of which the steps assume only
-- the fields that no code rewrites: the purpose and the amount of a payment.
-- The making of a recharge order is the exception in the payment code: it is one step, although it
-- awaits the provider between its writes. The half-made record between them has no order id, so that
-- no other step finds it, and it writes no ledger row.
-- A call that the source sets off and does not await, such as the settlement after a stop or after a
-- credit, is a call of its own.
--
-- Numbers are natural numbers, paise and milliseconds; energies are in hundredths of a watt-hour,
-- to which the source rounds them, and a meter is taken to report no finer. A JavaScript number is
-- exact below 2^53, which no amount here comes near; where the price of a charge is half a paisa, and
-- the doubles of the source decide which way it goes, Money.antt computes with those doubles, for
-- amounts below 10^10 paise. Identifiers, tags, signatures and secrets are
-- numbers, since the code only compares them. New ids are drawn by the database driver: they are a
-- parameter with the one property that they are not in use. The HMAC, the parser of webhook
-- bodies, the provider's answers, the charger's answers and the gateway's connections are
-- parameters too. Every loop is over a list but the one over the days of a window, which runs on
-- fuel: one more than the days of the window is enough (Analytics/Days.antt).
--
-- In the gateway a text is a string, a JSON value a tree and a JSON number a natural number or a
-- number of hundredths. `JSON` and `Date` are parameters, the first with the law that what it prints
-- it parses. A connector number that is no natural number is kept out of the registry of running
-- transactions.
-- The handlers are a plain object: what a call of a function of
-- `Object.prototype` gives, that a charger names as its action, is a parameter. A connector status
-- that is named like such a function is left out, and counts as unknown.
--
-- Not modelled: the reports of the analytics, notifications, the station map, the master data of
-- companies, stations and users, validation, the HTTP layer, pushes to browsers, the upgrade of a
-- charger's socket with its token, the frontend, the simulator and the scripts. Log lines,
-- notifications and pushes are left out of the functions that are modelled.
pub mod Prelude
pub mod Money
pub mod Access
pub mod Models
pub mod Store
pub mod Wallet
pub mod Payment
pub mod Session
pub mod Complaint
pub mod Ocpp
pub mod Tariffs
pub mod Analytics
pub mod Fleet
pub mod Tests
