-- ===== src/Models.antt =====
-- app/models.py: the rows of the database. Identifiers are only compared and ordered, so they are
-- numbers; so are times, counted from a fixed instant.
use diy_agent.Prelude.{ℕ, String, Option, List, Bool, true, false, Json}
use diy_agent.Schemas.{StoredOutput, ContextUsage}

-- `SessionStatus`
pub data SessionStatus : Type 0 where
  active archived : SessionStatus

-- `MessageRole`
pub data MessageRole : Type 0 where
  user assistant system : MessageRole

-- `RunStatus`
pub data RunStatus : Type 0 where
  pending running waiting_for_user succeeded failed cancelled : RunStatus

abbrev pub is_pending : RunStatus → Bool
is_pending RunStatus.pending = true
is_pending _ = false

abbrev pub is_running : RunStatus → Bool
is_running RunStatus.running = true
is_running _ = false

abbrev pub is_succeeded : RunStatus → Bool
is_succeeded RunStatus.succeeded = true
is_succeeded _ = false

-- `status in TERMINAL_RUN_STATUSES`
abbrev pub is_terminal : RunStatus → Bool
is_terminal RunStatus.succeeded = true
is_terminal RunStatus.failed = true
is_terminal RunStatus.cancelled = true
is_terminal _ = false

-- `AgentSession`
pub record AgentSession : Type 0 where
  pub id : ℕ
  pub user_id : ℕ
  pub title : Option String
  pub status : SessionStatus
  pub summary_text : Option String
  pub summary_through_message_id : Option ℕ
  pub summary_message_count : ℕ
  pub summary_token_count : ℕ
  pub summary_updated_at : Option ℕ
  pub created_at : ℕ
  pub updated_at : ℕ

-- `Message`
pub record Message : Type 0 where
  pub id : ℕ
  pub session_id : ℕ
  pub role : MessageRole
  pub content : String
  pub created_at : ℕ

-- `AgentRun`
pub record AgentRun : Type 0 where
  pub id : ℕ
  pub session_id : ℕ
  pub user_message_id : ℕ
  pub assistant_message_id : Option ℕ
  pub status : RunStatus
  pub output_json : Option StoredOutput
  pub trace_context_json : Option Json
  pub error_code : Option String
  pub error_message : Option String
  pub cancel_requested : Bool
  pub worker_id : Option ℕ
  pub lease_expires_at : Option ℕ
  pub heartbeat_at : Option ℕ
  pub attempt_count : ℕ
  pub max_attempts : ℕ
  pub next_retry_at : Option ℕ
  pub created_at : ℕ
  pub started_at : Option ℕ
  pub finished_at : Option ℕ
  pub updated_at : ℕ

-- The event types that the code writes.
pub data EventType : Type 0 where
  run_queued run_started run_reclaimed run_retry_started : EventType
  run_retry_scheduled run_succeeded run_failed run_cancelled cancellation_requested : EventType
  context_prepared tool_started tool_succeeded tool_failed : EventType
  agent_thinking context_limit_reached : EventType

-- The payloads that the code writes, one constructor for each set of keys.
pub data EventData : Type 0 where
  nothing : EventData
  status_only : RunStatus → EventData
  queued : RunStatus → ℕ → EventData
  claimed : RunStatus → ℕ → ℕ → ℕ → EventData
  expired : RunStatus → Option String → Option String → EventData
  attempt_failed : RunStatus → Option String → Option String → ℕ → Option ℕ → EventData
  usage : ContextUsage → EventData
  tool : String → EventData
  tool_error : String → String → EventData
  thinking : EventData
  limit : Bool → ℕ → ℕ → ℕ → EventData

-- `RunEvent`; the key `id` is left to the database.
pub record RunEvent : Type 0 where
  pub run_id : ℕ
  pub sequence : ℕ
  pub event_type : EventType
  pub data_json : EventData
  pub created_at : ℕ

-- The tables that the durable execution works on.
pub record Db : Type 0 where
  pub sessions : List AgentSession
  pub messages : List Message
  pub runs : List AgentRun
  pub events : List RunEvent
