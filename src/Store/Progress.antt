-- ===== src/Store/Progress.antt =====
-- app/store.py: what a Worker reads of its Run, and the snapshots that it writes as it goes.
use diy_agent.Prelude.{ℕ, String, Option, none, some, Bool, Json, Python, if◌then◌else◌}
use diy_agent.Schemas.{ContextUsage, RunResult, v1}
use diy_agent.Models.{AgentRun, EventType, EventData, Db}
use diy_agent.RunResults.{apply_context_usage, apply_tool_result}
use diy_agent.Store.Tables.{
  Result, ◌>>=◌, find_run, find_message, find_session, save_run, owned_run,
}
use diy_agent.Store.Events.{append_event}

-- `RunExecutionInput`
pub record RunExecutionInput : Type 0 where
  pub prompt : String
  pub user_id : ℕ
  pub session_id : ℕ
  pub message_id : ℕ
  pub trace_context : Option Json
  pub attempt_count : ℕ

-- `get_run_execution_input`
unfoldable pub get_run_execution_input : Db → ℕ → Option RunExecutionInput
get_run_execution_input db run_id = elim (find_run run_id db.runs) [
  | none ↦ none
  | some run ↦ elim (find_message run.user_message_id db.messages) [
    | none ↦ none
    | some message ↦ elim (find_session run.session_id db.sessions) [
      | none ↦ none
      | some conversation ↦ some (record {
        prompt = message.content;
        user_id = conversation.user_id;
        session_id = run.session_id;
        message_id = message.id;
        trace_context = run.trace_context_json;
        attempt_count = run.attempt_count;
      })
    ]
  ]
]

-- The write that the two snapshots share: the output and its event, or nothing.
unfoldable pub record_output :
    Db → ℕ → ℕ → (AgentRun → RunResult) → EventType → EventData → ℕ → ℕ → Result Db
record_output db run_id worker_id output event_type payload now checked_at =
    owned_run db run_id worker_id now >>= λ run.
    append_event
      (save_run db (record run { output_json = some (v1 (output run)); updated_at = now })) run_id
      event_type payload (some worker_id) checked_at

-- `record_context_snapshot`
unfoldable pub record_context_snapshot : Python → Db → ℕ → ℕ → ContextUsage → ℕ → ℕ → Result Db
unfolding record_output
record_context_snapshot py db run_id worker_id usage now checked_at =
    record_output db run_id worker_id (λ run. apply_context_usage py run.output_json usage now)
      EventType.context_prepared (EventData.usage usage) now checked_at

-- `record_tool_snapshot`
unfoldable pub record_tool_snapshot :
    Python → Db → ℕ → ℕ → String → Option Json → Bool → EventData → ℕ → ℕ → Result Db
unfolding record_output
record_tool_snapshot py db run_id worker_id tool_name snapshot succeeded payload now checked_at =
    record_output db run_id worker_id
      (λ run. apply_tool_result py run.output_json tool_name snapshot succeeded now)
      (if succeeded then EventType.tool_succeeded else EventType.tool_failed) payload now checked_at
