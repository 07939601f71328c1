-- ===== src/Lib.antt =====
-- tallykeep: a verification library of the backend, a watch-only bitcoin treasury.
--
-- The program. A user has holdings: accounts at an exchange, and purses, strongboxes and vaults of
-- their own. The treasury (services/treasury_service.py) has policies that sweep an account's balance
-- to a holding of the user's own; the sweep engine (workers/subscribers/sweep_engine.py) makes an
-- execution of a policy when a poll of the exchange (api/v1/internal_custodial.py) has updated the
-- balance, and the user confirms it or makes one by hand. Banking (services/banking_service.py) builds
-- payments from a holding's outputs as PSBTs, takes them back signed, broadcasts them through bitcoind
-- and cancels them, and reserves addresses for invoices; the chain listener
-- (workers/listeners/chain_listener.py) confirms the payments that it sees. All paths are under
-- backend/tallykeep. The services share a database through the repositories (repositories/*.py).
--
-- The files.
--   Prelude: tests, integers and lists. ℤ stands for Python's integers; amounts are in satoshis.
--   Errors: the exceptions, one constructor for each class, and results of pure checks.
--   Table, Table/Laws: a table behind a session. A row that is added is pending until a flush
--     (infrastructure/database.py makes the sessions with autoflush off).
--   Domain: the dataclasses of domain/*.py; `new_x` is the constructor with `__post_init__`.
--   Db: the tables together; Db/Session: an action on them, which returns or raises and keeps what it
--     has written; Db/Keeps: invariants of actions, and `committed`, what an endpoint of the API
--     commits; Db/Outcome: actions that write only when they return;
--     Db/After: what holds once an action has returned.
--   Repositories: reads and writes of repositories/*.py, with `get` as `session.get`, and reads that
--     build the domain object and so may raise.
--   Treasury/Warnings: `_compute_safety_warnings`. Treasury/Policies: the operations on policies.
--   Treasury/Engine: `_process_threshold_policies`. Treasury/Execution: `confirm_sweep_execution`,
--     `execute_sweep_now`, `update_polling_interval`. Treasury/Connection: `poll_cycle`.
--     Treasury/Mirroring: its loop over the reported entries. Treasury/Reconciling:
--     workers/subscribers/custodial_reconciler.py. Treasury/SelfCustody:
--     workers/schedulers/self_custody_poller.py.
--   Descriptors: adapters/descriptor_adapter.py. Base58 with the version of an extended key, Patterns
--     and Reading with the regular expressions, Parsing with `parse` and `derive_addresses`, Classifying
--     with `classify_descriptor`.
--   Holdings: services/holding_service.py. Creating with `create_purse`, `create_strongbox` and
--     `create_vault`, Changing with `update_holding`, `change_holding_type`, `delete_holding` and
--     `list_holdings`. Repositories/Cascade: `delete_cascade`, with the foreign keys of models/*.py.
--   Banking/Building: `build_payment_request`. Banking/Sending: `submit_signed_payment_request`,
--     `broadcast_payment_request`, `cancel_payment_request`. Banking/Linking:
--     `_link_payment_request_if_any`. Banking/Invoicing: `create_invoice`. Banking/Concurrency: the
--     calls in a row. Banking/Outside: BDK, bitcoind and text formats, which are parameters.
--   Health: services/security_health_service.py. Chain, Chain/Storing and Chain/Processing:
--     services/chain_processing_service.py, with `process_decoded_transaction`. Chain/Hygiene:
--     services/utxo_hygiene_service.py, with `apply_flags_and_propagate_reuse`. Tests: a sample
--     database, and the theorems at it.
--
-- The model. UUIDs and times are natural numbers; `now` and `new_id` are arguments that stand for
-- `datetime.now(UTC)` and `uuid4()`. The loops run over lists, by structural recursion; the digits of
-- a number in Base58 have the number itself as fuel, which is enough (Descriptors/Base58/Digits).
-- A service function is a `Session` action, composed as the code composes its calls; the handlers of
-- the API are `committed` and `broadcast_committed`. The exchange, the secret store, BDK and bitcoind
-- are parameters. Rows that are read by `created_at` are in the order of their insertion; those of one
-- transaction share that time, and the theorem on a created holding holds for any order of them. A fee
-- rate is in thousandths of a sat/vB, which is bitcoind's sat/kvB.
--
-- Not modelled: events on the bus, logging, HTTP, the adapters, the secret store and encryption, which
-- are calls of libraries; the text of exceptions; the chain listener and the scans; the PSBT
-- that BDK builds.
pub mod Prelude
pub mod Errors
pub mod Table
pub mod Domain
pub mod Db
pub mod Repositories
pub mod Treasury
pub mod Banking
pub mod Health
pub mod Chain
pub mod Descriptors
pub mod Holdings
pub mod Tests
