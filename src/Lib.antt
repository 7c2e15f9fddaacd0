-- ===== src/Lib.antt =====
-- PulseLedger: a double-entry ledger behind an HTTP API. Customers' accounts hold money in minor
-- units; a transfer or a funding moves it by one balanced posting in an append-only journal. Every
-- request that moves money may carry an idempotency key, every movement leaves an event in an
-- outbox, and a worker delivers the events to an audit consumer at least once.
--
-- How the parts interact. A route (Routes) claims its key (Idempotency), runs the service
-- (Transfers, Funding), and settles the claim if that fails. The service runs one transaction
-- (Ports), in which the posting function moves the balances (Ledger), the event is inserted
-- (Outbox) and the claim is completed (Idempotency): all of it commits, or none. The worker
-- (Outbox) claims batches of events under a lease and hands them to the consumer (Audit), which
-- deduplicates them by its inbox. Accounts and Auth give customers their accounts and their keys;
-- Reconciliation compares the cached balances with the journal. The app (Http) puts a guard before
-- every route and the handler behind it; the client (Web) calls it, and gives each intent to move
-- money one key. Operators migrate the schema, sweep old rows and replay parked events (Migrations,
-- Operations).
--
-- The files, and the code they model:
--   Base            tests, list functions, integers, decimal text and the jittered delay, which the
--                   components share.
--   Errors          src/errors.ts: failures as values, `knownError`, `replayableFailure`,
--                   `errorHandler`. Errors/Replay is about the stored answers.
--   Ports           src/ports/transaction.ts: `withTransaction`, with the faults of the server and the
--                   network as a parameter (`Faults`), a COMMIT whose answer is lost among them.
--   Ledger          src/modules/ledger/ledger-domain.ts (Money, Posting) and the posting function of
--                   migrations/002_double_entry_ledger.sql (Tables, Post). Inversion says what a
--                   posting that succeeded has passed, Consistent and Conservation what it keeps.
--   Responses       the bodies that the routes send and the records store.
--   Outbox          src/modules/outbox/: Events (outbox-domain.ts), Repository
--                   (outbox-repository.ts), Worker (outbox-worker.ts); Lifecycle, Retention and
--                   Delivered are about them. Drain, Marks and Progress say what a poll in which
--                   nothing fails makes of the tables and of each row.
--   Idempotency     src/modules/idempotency/: Records (the statements), Claim (`claim`, `tryClaim`,
--                   the service); Keys, Stable, Settled, Race and Retention are about them.
--   Database        the state that one request reads and writes; Soundness is its invariant.
--   Audit           src/modules/audit/: Consumer; Dedup is about it.
--   Pages           the keyset pages of `listJournalEntries` and `listOwned`, with their cursors.
--   Accounts        src/modules/accounts/: Store; Ownership and Opening are about it.
--   Transfers       src/modules/transfers/: Domain, Repository, Service; Lock, Work, Effect, Once,
--                   Retry and Safety are about them.
--   Funding         the store and the service of src/modules/ledger/: Store, Service, Journal; Work,
--                   Parties, Effect and Once are about them.
--   Routes          the handlers of transfer-routes.ts and ledger-routes.ts: Flow, Money; Replay is
--                   about them.
--   Auth            src/modules/auth/ and src/infrastructure/http/admin-auth.ts: Store, Service; Keys,
--                   Identities and Strangers are about them.
--   Http            Bearer and Firebase: src/infrastructure/http/api-key-auth.ts and
--                   firebase-id-token.ts. Metrics: metrics.ts, with Exposition about it. Requests:
--                   what Fastify hands on. Handlers: the handlers of the modules' *-routes.ts
--                   files. App: the guards and the routes as `buildApp` of src/app.ts puts them
--                   together; Guards and Sound are about them.
--   Operations      Arguments, Sweep and Commands: src/retention-cli.ts and
--                   src/modules/outbox/outbox-cli.ts, over outbox-admin-service.ts. Config:
--                   src/config.ts, with Valid about it.
--   Architecture    scripts/check-architecture.ts: Paths, Imports and Rules. Layers and Layered
--                   decide the rules; Clauses, Header and Files tell the imports and files of a
--                   tree without the program's search, and Sound is about them all.
--   Migrations      src/infrastructure/database/migrate.ts: Runner; Loop and Resume are about it.
--   Web             the client: Money and Display are web/src/lib/money.ts, with Displayed about
--                   them; Errors and Calls are api.ts and session.ts, with Listing,
--                   Credentials and Settled about them; Intents and Forms are the two money forms
--                   of web/src/pages/AccountDetail.tsx and Admin.tsx.
--   Reconciliation  src/modules/reconciliation/: Report; Groups, Issues and Clean are about it.
--   Tests           runs on a small bank, and the theorems applied to them.
--
-- Conventions. A database is a value, and a statement a function on its rows; what another session
-- commits between two statements is a function on the state (`between`, `interference`,
-- `Surroundings`). A transaction's work is a function from the state that it sees to a result and
-- a new state. Identifiers, currencies, hashes and times are natural numbers, since the code only
-- compares them. An amount is a natural number, and a balance an integer; the range of `bigint` is
-- checked where PostgreSQL checks it. What `randomUUID()`, `Math.random()` and the clocks give is
-- an argument.
--
-- Fuel. `attempt_loop` and `claim_loop` recurse on the attempts left, which the source bounds (12
-- and 3). `walk_pages` and `read_pages` are clients that follow cursors: the number of rows plus
-- one is enough, and the theorems about them run with that fuel. For the purge loops, which
-- say `none` when their fuel ends, the number of rows plus one is enough too (Retention), and that
-- is what the sweep gives them. `list_pages` recurses on the pages left, 50 in the source.
--
-- Parameters. The text form of a cursor (`Codec`: JSON and base64) is decoded into what was
-- encoded, and is not empty. The package jose (`Jose`) checks the audience and the issuer of a
-- token that it verifies. SHA-256 (`hash`), the characters of a new key and the Unicode clean-up of
-- provider text (`sanitize`) are arbitrary functions and values; so is what the statements of a
-- migration file do to the schema (`run_sql`). What `Number` makes of a text is an input, and so are
-- the transfer counters that a metrics route reads, and the outcome of `fetch`.
--
-- Not modelled: Fastify's parsing, schemas and serialisation (a request says whether its schema
-- accepts it), the listening server with its signals, the logs and the telemetry; the connection
-- pool; a claim whose own statements fail; the reconciliation command, which prints the report; the
-- seed and benchmark scripts; the client's views, its router and the Firebase SDK. The append-only
-- triggers guard the journal against statements that the service never sends. The isolation of
-- PostgreSQL is taken as given: the work of a transaction sees one state. One process runs the
-- migrations at a time.
pub mod Base
pub mod Errors
pub mod Ledger
pub mod Responses
pub mod Outbox
pub mod Idempotency
pub mod Ports
pub mod Database
pub mod Audit
pub mod Pages
pub mod Accounts
pub mod Soundness
pub mod Transfers
pub mod Funding
pub mod Routes
pub mod Auth
pub mod Reconciliation
pub mod Http
pub mod Operations
pub mod Migrations
pub mod Web
pub mod Architecture
pub mod Tests
