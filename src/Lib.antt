-- ===== src/Lib.antt =====
-- The durable execution of diy_agent, a travel planning agent. A user's message is stored together
-- with a Run; Workers claim Runs under a lease, call the agent, and write their progress and the
-- end of the Run; a browser reads the log of events. All of it meets in the tables of one database.
--
-- Prelude: tests on numbers, lists, texts, and the values of the JSON columns. Prelude.Tables:
-- rows that keep each other out.
-- Schemas, Models: the tables of app/models.py and the result of app/schemas.py, as records and
-- data types with the source's fields. `Db` is the state that the transactions work on.
-- RunResults: app/run_results.py, one function per function of the source; a branch of
-- `apply_tool_result` is a function of its own. RunResults.Bounds states the limits of
-- app/schemas.py, RunResults.Outcomes what a finished result says.
-- Store: app/store.py, one function per transaction. Tables holds rows and guards, Events the log
-- (`append_event_in_session`, `read_events_after`), Enqueue `enqueue_message`, Claim
-- `_mark_terminal_expired_runs`, `claim_next_run` and `renew_lease`, Progress the snapshots, and
-- Finish `complete_run`, `fail_run` and `request_cancellation`.
-- Store.Machine is the specification of a Run's row as a step relation, Store.Writes that of the
-- tables: new rows, steps of rows, and appended events. Store.Refines shows that each transaction
-- is such writes; Store.History and Store.Leases draw the conclusions.
-- Context: app/context.py. Tokens is `TokenCounter`, Summary `ExtractiveSummarizer`, Budget and
-- Prepare the parts of `prepare_session_context` in its order.
-- Worker: app/worker.py, one attempt of `execute_run` and `run_once`; what the agent does is a
-- parameter.
-- Callbacks: app/callbacks.py. Outputs reads the output of a tool, Handlers holds the handlers of
-- `ProgressCallback`, with what one raises as a value, and Agent an agent as any sequence of calls of
-- its handler with other transactions between them; an exception ends it (`raise_error`).
-- Memory: app/memory.py and the table `TravelMemory`. Texts has the patterns, Candidates the extraction
-- from a prompt and a form, Backend the Store with its laws, Service and Recall the methods. Writes
-- says what the methods do to the table, Merges, Collection and Extraction what an extraction does,
-- Actions what any calls do, Offers and Pages what candidates and pages are; Held, Live, Ranked and
-- Recalled follow the Store up to `recall`.
-- Auth: app/auth.py. Emails is `normalize_email`, Service the methods of `AuthService`; Writes and
-- Methods say what they do to the table of sessions, Sessions and Logins what becomes of a token. `Draw` holds what a
-- call takes from the clock, from `secrets` and from `uuid4`; the clock counts seconds.
-- Examples: the theorems at small data.
--
-- How the code is read. A transaction is a function from tables to new tables, or to an error that
-- leaves them as they were, which is the rollback. Transactions come one after another: the code
-- locks the rows it changes, and `locked` tells the rows that `SKIP LOCKED` passes over. Times,
-- identifiers and names of Workers are numbers, since they are only compared; a duration is in the
-- unit of the clock. A reading of the clock is an argument; readings within one call are one
-- argument unless a guard lies between them. The identifier of a new row is an argument. The
-- columns `updated_at` follow every change of their row (`onupdate`). A stored dictionary is a
-- `StoredOutput`: one that validates as a result, or any other. A missing or non-list value gives no
-- entries where the code loops over `warnings` or `source_pages` of a tool's payload. The `TypeError` of
-- `complete_result` on sources that are a number or a Boolean is an error of `complete_run`. `Python`
-- holds what the code calls of the runtime: `lower`, `strip`, `str` of a value that is no text, and
-- the test for zero; `squeeze` is `" ".join(text.split())`, and `Encoding` the tokenizer. Budgets are
-- natural numbers, and a difference stops at 0 only where the code takes a maximum anyway.
--
-- A confidence is in hundredths. The Store of the memories is any type of states with the operations
-- of `MemoryStoreBackend` and the laws of `BackendLaws`; a call of it that raises leaves it as it was.
--
-- The search in `TokenCounter.truncate` runs on fuel, as many rounds as the text has characters, and
-- has no result where they run out before the two ends meet, which Context.Truncation rules out. All
-- other loops are structural.
--
-- Not modelled: telemetry, logging, configuration and the database's own errors; app/worker.py
-- beyond what is named above, with its recall of memories before the agent's work and their
-- extraction after a success, app/main.py, the travel
-- planner and the weather tool; the drivers of model and network.
pub mod Prelude
pub mod Schemas
pub mod Models
pub mod RunResults
pub mod Store
pub mod Context
pub mod Worker
pub mod Callbacks
pub mod Memory
pub mod Auth
pub mod Examples
