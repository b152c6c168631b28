-- ===== src/Store/Enqueue.antt =====
-- app/store.py: `enqueue_message`. The identifiers of the new rows are arguments.
use diy_agent.Prelude.{
  ℕ, suc, String, Option, none, some, List, [], ◌∷◌, ◌++◌, Bool, false, ◌&&◌, ◌||◌, ltb, ◌==◌, Json,
  Python, keep_if, length, first, if◌then◌else◌,
}
use diy_agent.Schemas.{PlanningRequest, StoredOutput, v1}
use diy_agent.Models.{
  AgentRun, AgentSession, Message, MessageRole, RunStatus, EventType, EventData, Db, is_succeeded,
}
use diy_agent.RunResults.{build_initial_result}
use diy_agent.Store.Tables.{Result, ok, err, answer_with, touch_session}
use diy_agent.Store.Events.{append_event}

-- `(a.created_at, a.id) < (b.created_at, b.id)`
abbrev pub created_before : AgentRun → AgentRun → Bool
created_before a b = ltb a.created_at b.created_at || a.created_at == b.created_at && ltb a.id b.id

abbrev pub later_run : AgentRun → Option AgentRun → AgentRun
later_run run none = run
later_run run (some other) = if created_before run other then other else run

-- `ORDER BY created_at DESC, id DESC LIMIT 1`
abbrev pub latest_run : List AgentRun → Option AgentRun
latest_run [] = none
latest_run (run ∷ runs) = some (later_run run (latest_run runs))

-- The last Run of the session that succeeded.
unfoldable pub previous_success : ℕ → List AgentRun → Option AgentRun
previous_success session_id runs =
    latest_run (keep_if (λ run. run.session_id == session_id && is_succeeded run.status) runs)

-- `count(AgentRun.id) + 1` over the session
unfoldable pub plan_revision : ℕ → List AgentRun → ℕ
plan_revision session_id runs = suc (length (keep_if (λ run. run.session_id == session_id) runs))

abbrev pub id_of : Option AgentRun → Option ℕ
id_of none = none
id_of (some run) = some run.id

abbrev pub output_of : Option AgentRun → Option StoredOutput
output_of none = none
output_of (some run) = run.output_json

-- A new row of `agent_runs`, with the defaults of its columns.
unfoldable pub new_run : ℕ → ℕ → ℕ → ℕ → Option Json → StoredOutput → ℕ → AgentRun
new_run run_id session_id message_id max_attempts trace_context output now = record {
  id = run_id;
  session_id = session_id;
  user_message_id = message_id;
  assistant_message_id = none;
  status = RunStatus.pending;
  output_json = some output;
  trace_context_json = trace_context;
  error_code = none;
  error_message = none;
  cancel_requested = false;
  worker_id = none;
  lease_expires_at = none;
  heartbeat_at = none;
  attempt_count = 0;
  max_attempts = max_attempts;
  next_retry_at = none;
  created_at = now;
  started_at = none;
  finished_at = none;
  updated_at = now;
}

-- `AgentSession.id == session_id, AgentSession.user_id == user_id`
abbrev pub owned_session : Db → ℕ → ℕ → Option AgentSession
owned_session db session_id user_id =
    first (λ conversation. conversation.id == session_id && conversation.user_id == user_id)
      db.sessions

-- What `enqueue_message` is called with, beside the session and the user.
pub record Submission : Type 0 where
  pub content : String
  pub max_attempts : ℕ
  pub planning_context : Option PlanningRequest
  pub trace_context : Option Json
  pub message_id : ℕ
  pub run_id : ℕ

-- The output that the new Run starts with.
unfoldable pub initial_output : Python → Db → ℕ → Submission → ℕ → StoredOutput
initial_output py db session_id s now =
    let previous = previous_success session_id db.runs in
    v1 (
      build_initial_result py s.content s.planning_context (plan_revision session_id db.runs)
        (id_of previous) (output_of previous) now)

unfoldable pub new_message : ℕ → ℕ → MessageRole → String → ℕ → Message
new_message message_id session_id role content now = record {
  id = message_id;
  session_id = session_id;
  role = role;
  content = content;
  created_at = now;
}

-- The rows that `enqueue_message` adds.
unfoldable pub queued_message : ℕ → Submission → ℕ → Message
unfolding new_message
queued_message session_id s now = new_message s.message_id session_id MessageRole.user s.content now

unfoldable pub queued_run : Python → Db → ℕ → Submission → ℕ → AgentRun
unfolding new_run initial_output
queued_run py db session_id s now =
    new_run s.run_id session_id s.message_id s.max_attempts s.trace_context
      (initial_output py db session_id s now) now

unfoldable pub with_submission : Python → Db → ℕ → Submission → ℕ → Db
with_submission py db session_id s now = record db {
  messages = db.messages ++ queued_message session_id s now ∷ [];
  runs = db.runs ++ queued_run py db session_id s now ∷ [];
}

-- `conversation.updated_at = utc_now()` at the end of `enqueue_message`
abbrev pub touched : ℕ → ℕ → Result Db → Result Db
touched session_id now (ok db) =
    ok (record db { sessions = touch_session session_id now db.sessions })
touched session_id now (err e) = err e

-- `enqueue_message`
unfoldable pub enqueue_message :
    Python → Db → ℕ → ℕ → Submission → ℕ → Result (Option (Message × AgentRun) × Db)
unfolding queued_message queued_run with_submission
enqueue_message py db session_id user_id s now = elim (owned_session db session_id user_id) [
  | none ↦ ok (none, db)
  | some conversation ↦
      answer_with (some (queued_message session_id s now, queued_run py db session_id s now)) (
        touched session_id now (
          append_event (with_submission py db session_id s now) s.run_id EventType.run_queued
            (EventData.queued RunStatus.pending s.max_attempts) none now))
]
