-- ===== src/Lib.antt =====
-- BrowserTransactionBench: a verification library of the benchmark's core.
--
-- The benchmark asks a browser agent to read, to save or to send a message draft in a small fixture
-- application, drops the connection of one verified send, and judges the run by the durable state
-- of the fixture's database and by the agent's own claim. The parts, and the modules that model them:
--
-- * btb/app/db.py is Db. A database is the record of the four tables; each handler (`seed_draft`,
--   `create_draft`, `save_draft`, `send_message`) gives its result or exception and the database
--   that it leaves. Db/Schema has the constraints of `_SCHEMA`, Db/Drafts and Db/Send the handlers,
--   Db/Queries the views; Db/Invariant says what a valid database is. Table is the SQL of a table
--   with an integer primary key.
-- * btb/app/server.py is Server: the routes of `create_app` over that database, with the token check.
-- * btb/harness/inject.py is Inject. Inject/Upstream is `_forward` from the client's answer on,
--   Inject/State the state of `InjectProxy` and each operation under its lock, Inject/Threads the
--   handler `_dispatch` as a sequence of moves, any number of which interleave, and Inject/Receipts
--   is `report`. Fixture puts the proxy before the server.
-- * btb/oracle/claim.py is Claim: `parse_claim`, `claim_from_mapping` and the legacy heuristic.
-- * btb/oracle/score.py is Score: `evaluate` over two snapshots, which are databases, with one
--   module for each group of its checks.
-- * btb/tasks/runner.py and btb/tasks/definitions are Tasks: the frozen definitions and the set-up.
-- * btb/harness/validate_manifest.py is Audit: the second derivation of an evaluation, of a receipt
--   whose snapshots have passed the schema. Audit/Status is its reconciliation, calibration and
--   headline, Audit/Derived the effects.
-- * btb/harness/engine.py has a navigation policy, which is Navigation, with `_FixtureOrigin` in
--   Navigation/Origin and `_FixtureNavigationPolicy` in Navigation/Policy.
-- * btb/harness/repetition.py is Study and Publication. Study/Identity, Study/Conditions and
--   Study/Bindings are the parts of a plan with `from_plan` and `to_dict`, Study/Matrix is `_runs`,
--   Study/Plan `build_plan` and `_validated_plan`; Study/Receipts is `validated_receipts`,
--   Study/Execution the loop of `execute_plan` and Study/Execute what stands before it.
--   Publication/Commit is `_commit_publication`, call by call.
-- * btb/harness/manifest.py has `ReceiptBuilder`, which is Manifest. Manifest/Builder is its state
--   and the operations that gather evidence, Manifest/Traces its traces and `redact_value`,
--   Manifest/Writing the receipt and how it is written, and Manifest/Actions any sequence of calls.
--   A builder with the files of its directory is a `Desk`.
-- * btb/harness/repetition_summary.py is Summary. Of `write_summaries`, Summary/Binding are the
--   digests that a pair of summaries declares, Summary/Pair the calls and the rollback. Of `_cell`,
--   Summary/Signature is the check of the signatures and Summary/Cell the counts.
-- * Json has the values that `json.loads` gives and the Python operations on them; Prelude has the
--   helpers that all share, and Tests the runs on concrete inputs.
--
-- How it is modelled. Keys, counts and times are naturals, since SQLite counts keys from 1; a float
-- of a definition is a multiple of 2^-1074, the least double, so comparison with an integer is
-- exact, and NaN cannot occur because the parser of the definitions is given finite numbers. Every
-- insert of db.py names a draft, so `messages.draft_id` is never NULL, and writes one of two
-- outcomes, so the branch of `_send_checks` for other outcomes cannot be reached. A diagnostic is a
-- constructor with the values that its text prints. A raised exception is a value of `Py`, `Result`
-- or of an option. The loops are structural recursions; only the decimal numeral of a draft's key
-- uses rounds, one more than its value, and each round divides by ten.
--
-- A round of `execute_plan` is a record of what the machine answers in it: the clock, the worker, the
-- staged directory, the calls that raise, and what others write meanwhile. Its times are sums in the
-- unit of the floats, so they are exact. In a publication any one call may raise, and none does
-- during the rollback; of `write_summaries` any set of calls may raise. During the write of a receipt
-- the disk may fail before or after the link. `json.loads(canonical_json_bytes(v))` is `v` up to the
-- order of keys.
--
-- Parameters, since their code is not in the repository or is the machine's: the decoder behind
-- `json.loads` (for claim.py it gives the syntax, over which the code's two hooks run), the encoder
-- and digests, the installed distributions, the rows that csv.DictReader gives and the digests that
-- match in a Markdown file, the split of a path, `uuid4`, the clock, path resolution, and the
-- functions on URLs, addresses and host names, which the navigation policy takes as one record. Of
-- the code's own, the validator of a receipt, `redact_text` with its patterns, and the two rendered
-- summaries are arguments, which the theorems leave free.
--
-- Not modelled: sockets, HTTP transport and process control, which are events or left out; the
-- routing and validation of FastAPI; the page template; the command line; the rest of the
-- manifest validator, which checks receipts against files; the worker processes, descriptors and
-- temporary files of the repetition runner; the prompts, the sum of duplicate attempts and the rates
-- of a summary, and how it is rendered; the artifacts of a receipt builder, the redaction of one text
-- and the view of Git; and the rest of the browser engine.

pub mod Prelude
pub mod Json
pub mod Table
pub mod Db
pub mod Server
pub mod Claim
pub mod Score
pub mod Tasks
pub mod Inject
pub mod Fixture
pub mod Audit
pub mod Navigation
pub mod Study
pub mod Publication
pub mod Manifest
pub mod Summary
pub mod Tests
