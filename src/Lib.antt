-- ===== src/Lib.antt =====
-- The domain core of the exchange backend, apps/backend/src/modules, as executable definitions.
--
-- A client's order passes the gateway's guards (rate limit, idempotency), is checked by the rules of its
-- instrument, and reserves its funds on the ledger. The sequencer hands it to the state machine of its
-- instrument, in strict sequence; the matching engine trades it against the book; each trade is written
-- to the event log and settled on the ledger, which keeps the balances and a journal of double entries.
-- Administrative actions are kept in the audit log. Every amount is an exact decimal. Events feed the
-- read models and the market data hub, whose clients catch up by replays and snapshots. Callers are
-- API keys or human sessions.
--
-- Decimal: shared-kernel/decimal.ts. A `Decimal` is a coefficient (a bigint, here ℤ over the native
--   ℕ) over a power of ten. `normalize`, `align`, `add`, `subtract`, `multiply`, `compare`, `round` and
--   `isMultipleOf` are the functions of these names; Decimal/Text has `toString`, and Decimal/Parse has
--   `from`, whose pattern is read by a scanner. The loop of `normalize` is structural recursion on the
--   scale.
-- Ledger: ledger/domain. Ledger/Balance is balance.ts, Ledger/Posting is posting.ts and
--   asset-account.ts, Ledger/State and Ledger/Operations are `class Ledger` of ledger.ts. A method is an
--   action that passes the state of the ledger on and returns a result or an error; what it did to
--   the state before it threw is kept. Ledger/Calls has any sequence of calls. `createPosting` numbers
--   postings from a counter, which a failed call may have moved.
-- Matching: trading/matching-engine/matching-engine.ts. Orders are shared objects: `active_orders`
--   stands for the heap and the price levels of both sides hold references into it, by order id.
--   The `while` loop of `place` runs on fuel, two more than there are active orders; it is proved to
--   be enough. `Array.prototype.sort` is a stable insertion sort. Matching/Session has any sequence
--   of commands.
-- Trading: StateMachine is trading/state-machine/state-machine.ts, Sequencer is
--   trading/sequencer/sequencer.ts, Leases is trading/sequencer/memory-sequencer.store.ts, Lifecycle is
--   trading/lifecycle/trading-lifecycle.ts, EventLog is trading/event-log/event-log.ts, and Instruments
--   is trading/instruments/instrument.ts and instrument.validator.ts. The transition of a state machine,
--   the factory of machines, the checksum of an archive and the handler of a consumer are parameters.
--   The `while` loop of `consume` runs on fuel, one pass for each unread event.
-- Settlement: trading/settlement, over the ledger and the event log, each a part of its state. The
--   atomic boundary is `DIRECT_ATOMIC_EXECUTION`: a step that throws leaves what the steps before it did.
--   Settlement/Once has any sequence of calls, and Settlement/Parties the buyer and the seller of a trade.
-- Audit: audit/domain/audit-log.ts, over a hash that is a parameter.
-- Gateway: gateway/application/gateway.rate-limit.ts and gateway.idempotency.ts. The end of a running
--   operation is a step of its own, so that calls may come between.
-- MarketData: market-data/domain/market-data.ts. The hub keeps a book, a window of increments and the
--   subscribers. A subscriber's handler is a parameter that only accepts or refuses; it does not call the
--   hub back. MarketData/Replica is the client that the comments of the code describe.
-- Admin: admin/infrastructure/memory-admission-control.ts, with the types of its port.
-- Projections: projections/application/projection.store.ts. A payload is a JSON object of texts and lists;
--   `addDecimal` works on the texts, and its `BigInt` reads decimal digits only.
-- Auth: auth/domain/authentication.ts. SHA-256 is a parameter; random ids, secrets and the time are
--   arguments.
-- Identity: identity/infrastructure/memory-identity.stores.ts, the users with their challenges, and the
--   sessions. Dates that are compared are numbers.
-- HumanAuth: auth/application/human-auth.service.ts, over the stores of Identity. The password hasher, the
--   keyed digest, the normal form of an email and the configuration are parameters; the calls of the
--   audit port are kept as a list. The administrative operations are left out.
-- Prelude: shared notation, lists, text, numbers, the JavaScript `Map` as an association list in
--   insertion order (Prelude/Dict) and the monad of results over a state (Prelude/Exec).
--
-- Numbers that the code keeps as JavaScript numbers (sequences, offsets, counts, times in milliseconds)
-- are naturals, without the bound of safe integers.
--
-- Not modelled: telemetry, metrics and logs, which only observe; the runtime processor and the workers,
-- which connect these parts to brokers and timers; the HTTP and WebSocket layers, the database and Redis
-- adapters, the configuration and the user interface, which do input and output.
pub mod Prelude
pub mod Decimal
pub mod Ledger
pub mod Matching
pub mod Trading
pub mod Audit
pub mod Gateway
pub mod Settlement
pub mod MarketData
pub mod Admin
pub mod Projections
pub mod Auth
pub mod Identity
pub mod HumanAuth
