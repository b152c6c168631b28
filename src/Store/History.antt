-- ===== src/Store/History.antt =====
-- The tables under any sequence of transactions of app/store.py and app/context.py, of any Workers and users. One
-- transaction works on the tables that the one before it left: PostgreSQL serialises them by the
-- row locks that the code takes.
pub mod Safety
pub mod Replay
use diy_agent.Prelude.{ℕ, ◌<◌, ◌≡◌, String, Option, List, none, Bool, Json, Python}
use diy_agent.Schemas.{ContextUsage}
use diy_agent.Models.{Db, AgentRun, Message, EventType, EventData}
use diy_agent.Context.Tokens.{Encoding}
use diy_agent.Context.Budget.{ContextPolicy}
use diy_agent.Context.Prepare.{PreparedContext, prepared, prepare_session_context}
use diy_agent.Store.Tables.{ok, find_run}
use diy_agent.Store.Events.{append_event}
use diy_agent.Store.Enqueue.{Submission, enqueue_message}
use diy_agent.Store.Claim.{claim_next_run, renew_lease}
use diy_agent.Store.Progress.{record_context_snapshot, record_tool_snapshot}
use diy_agent.Store.Finish.{Failure, complete_run, fail_run, request_cancellation}

-- One transaction that was committed. A new Run has a fresh identifier and may be tried once.
pub data Transaction (py : Python) (db after : Db) : Type 0 where
  enqueue :
      (session_id user_id : ℕ) (s : Submission) (now : ℕ) (answer : Option (Message × AgentRun))
      → find_run s.run_id db.runs ≡ none
      → 0 < s.max_attempts
      → enqueue_message py db session_id user_id s now ≡ ok (answer, after)
      → Transaction py db after
  append :
      (run_id : ℕ) (type : EventType) (payload : EventData) (owner : Option ℕ) (now : ℕ)
      → append_event db run_id type payload owner now ≡ ok after
      → Transaction py db after
  claim :
      (worker_id lease_seconds : ℕ) (locked : ℕ → Bool) (marked_at now checked_at : ℕ)
      (answer : Option ℕ)
      → claim_next_run py db worker_id lease_seconds locked marked_at now checked_at
        ≡ ok (answer, after)
      → Transaction py db after
  renew :
      (run_id worker_id lease_seconds now : ℕ)
      → after ≡ (renew_lease db run_id worker_id lease_seconds now).1
      → Transaction py db after
  context :
      (run_id worker_id : ℕ) (usage : ContextUsage) (now checked_at : ℕ)
      → record_context_snapshot py db run_id worker_id usage now checked_at ≡ ok after
      → Transaction py db after
  tool :
      (run_id worker_id : ℕ) (tool_name : String) (snapshot : Option Json) (succeeded : Bool)
      (payload : EventData) (now checked_at : ℕ)
      → record_tool_snapshot py db run_id worker_id tool_name snapshot succeeded payload now
          checked_at
        ≡ ok after
      → Transaction py db after
  complete :
      (run_id worker_id : ℕ) (output : Json) (message_id now : ℕ) (answer : Bool)
      → complete_run py db run_id worker_id output message_id now ≡ ok (answer, after)
      → Transaction py db after
  fail :
      (run_id worker_id : ℕ) (failure : Failure) (now : ℕ) (answer : Bool)
      → fail_run py db run_id worker_id failure now ≡ ok (answer, after)
      → Transaction py db after
  cancel :
      (run_id user_id now : ℕ) (answer : Option AgentRun)
      → request_cancellation py db run_id user_id now ≡ ok (answer, after)
      → Transaction py db after
  prepare :
      (squeeze : String → String) (encoding : Option Encoding) (session_id message_id : ℕ)
      (prompt : String) (policy : ContextPolicy) (memories : List String) (now : ℕ)
      (context : PreparedContext)
      → prepare_session_context py squeeze encoding db session_id message_id prompt policy memories
          now
        ≡ prepared context after
      → Transaction py db after

-- Any number of them.
pub data History (py : Python) (db : Db) : Db → Type 0 where
  start : History py db db
  then_do : {mid after : Db} → History py db mid → Transaction py mid after → History py db after
