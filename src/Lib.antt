-- ===== src/Lib.antt =====
-- ChangeSafe reviews a change of a column (a rename, a removal or a change of its type) against the
-- metadata of a data catalogue, generates a migration, validates it, asks for an approval and
-- publishes it. This library models the core of the service in apps/api/src/changesafe.
--
-- SqlTypes (sql_types.py): `canonical_sql_type` and `type_change_kind`. Parts reads a type expression,
--   Canonicalize gives it its canonical form, Kind classifies a change; Canonical, Sized, Widens, Order
--   and Values prove what the classification means.
-- Domain (domain.py): the records of requests, metadata, warehouse evidence, analyses and publications,
--   with their validators as functions. Constructed is the constructor of `WarehouseValidationResult`.
-- Policy (policy.py): Evaluate is `evaluate_approval_policy`, one function for each blocker; Approval
--   relates it to a record of conditions.
-- Risk (risk.py): Score is `score_change`; Bounds and Monotone are its proofs.
-- Impact (impact.py): Facts and Classify are `classify_impacts`; Evidence is its proof.
-- Exec: actions on a state that may raise; the state comes back beside an error too.
-- Store (store.py): `RunStore` over four tables. States is the table of transitions; Tables has the rows;
--   Runs is `create`, `get`, `transition` and `events`; Usage the cost of the language model; Ledger the
--   publications; Scrub what a row gives when it is read. Steps has the calls as steps and the tables
--   they reach. Trail, Advance, Insert, Inserting, Invariant, Creation, History, Behaviour, Budget, Binding, Entries,
--   Reading and Refinement are proofs.
-- Orchestrator (orchestrator.py): Ports has the settings and ports, Warehouse the warehouse validation,
--   Stages the block of the `try` of `_analyze_from_loading` and Analyze the rest. Rules, Decided, Ends,
--   Outcome, Whole, Fallback and Queried are proofs.
-- Config (config.py): Settings has the fields that the modelled code reads, the capabilities computed from
--   them and `protect_external_mutations`.
-- Publication (publication/service.py, publication/preview.py): Intent is what a publication is meant to
--   do, Authorize the token and the allowlist, Patch the unified patch, Ports the service, its ports and
--   the world it changes, Review `approve` up to its first write, Ends, Writeback and Live the stages of
--   `_approve_live`, Approve the rest. Checkpoints says what the ports have answered before a failure.
--   Rules, Calls, Bound, Granted, Permitted, Ready, Settled, Opened, Whole, Reuse and Kinds are proofs.
-- Warehouse (warehouse/queries.py): Text has the SQL of the queries, Contract a query and what is
--   registered for it, Guard `validate_read_only_query`, Plan `build_validation_plan`. Guarded, ReadOnly,
--   Normal, Clean, CleanSql, Trusted, Registered and Agree are proofs.
-- Replay (context/replay.py): Catalog is the recorded catalogue with its validator, Load the adapter;
--   Loaded is its proof.
-- Examples: inputs, and the theorems at them.
--
-- The parts interact as in the service: the orchestrator reads and moves runs by `get` and `transition`
-- of the store, calls its ports, scores the risk, classifies the impacts and evaluates the policy, and
-- writes the analysis that results into the row of the run. The publication service reads that row,
-- checks it against the policy again, binds an entry of the ledger, and moves the run by `transition`
-- while it saves a checkpoint in the entry after each call of a port.
--
-- Numbers are natural numbers without a bound, as in Python; no modelled value is negative. A
-- moment is a count of microseconds. A text is compared and joined whole, or walked as its code
-- points; case mapping and white space are those of ASCII. A decimal amount is a coefficient and
-- a number of places; its product is rounded to 28 digits, those of Python's default context.
-- Every loop is structural recursion; the printing of a number takes one round more than the
-- number, which is more than it has digits, and a count of digits goes through as many rounds as
-- the number. A call of the store is one step, since each is one transaction, and `create` has
-- the statements of its transaction written out; the time and the identity of a new run are
-- arguments. SQLite's rows are lists in the order of insertion.
--
-- The publisher, the writeback to DataHub, `publication_key`, the SQL parser, as what it says of a
-- statement, and the digests are arguments too. The registry of contracts by the identity of a query is
-- the contract that it holds for the query, if it holds one. An approval holds a lock, so it runs alone.
--
-- Arguments of the model, and so not modelled: the loading of metadata, the generation of
-- artifacts, their verification, the queries of the warehouse and the clock. Two of the fields of
-- `ContextBundle` (and of a recorded catalogue) are left out, since nothing reads them. Not
-- modelled: the live adapter, the templates and the language model, the web interface, redaction,
-- `recent_activity`, the migration of legacy rows, the limits on lengths that records other than
-- a request, a result of the warehouse and a new entry of the ledger declare, the bookkeeping of
-- background tasks, cancellation, and the scripts.
pub mod Prelude
pub mod SqlTypes
pub mod Domain
pub mod Policy
pub mod Risk
pub mod Impact
pub mod Exec
pub mod Store
pub mod Orchestrator
pub mod Config
pub mod Publication
pub mod Warehouse
pub mod Replay
pub mod Examples
