-- ===== src/Examples/Samples.antt =====
-- The data that the examples share: a session, a Run that waits, and one that is running.
use diy_agent.Prelude.{
  ℕ, Bool, refl, none, some, [], ◌∷◌, true, false, Json, Python, arith, field, end,
}
use diy_agent.Models.{
  AgentSession, SessionStatus, Message, MessageRole, AgentRun, RunStatus, RunEvent, EventType,
  EventData, Db,
}
use diy_agent.Store.Enqueue.{Submission}
use diy_agent.Store.Finish.{Failure}
use diy_agent.Store.Writes.{DbIsValid}

-- A runtime that leaves texts as they are.
abbrev pub plain : Python
plain = record { lower = λ s. s; strip = λ s. s; to_str = λ v. "?"; is_zero = λ n. false }

abbrev pub nobody_holds : ℕ → Bool
nobody_holds run_id = false

abbrev pub trip : AgentSession
trip = record {
  id = 1;
  user_id = 7;
  title = none;
  status = SessionStatus.active;
  summary_text = none;
  summary_through_message_id = none;
  summary_message_count = 0;
  summary_token_count = 0;
  summary_updated_at = none;
  created_at = 0;
  updated_at = 0;
}

abbrev pub question : Message
question = record {
  id = 3;
  session_id = 1;
  role = MessageRole.user;
  content = "Kyoto";
  created_at = 10;
}

abbrev pub waiting : AgentRun
waiting = record {
  id = 5;
  session_id = 1;
  user_message_id = 3;
  assistant_message_id = none;
  status = RunStatus.pending;
  output_json = none;
  trace_context_json = none;
  error_code = none;
  error_message = none;
  cancel_requested = false;
  worker_id = none;
  lease_expires_at = none;
  heartbeat_at = none;
  attempt_count = 0;
  max_attempts = 2;
  next_retry_at = none;
  created_at = 10;
  started_at = none;
  finished_at = none;
  updated_at = 10;
}

-- The Worker 11 has the Run until 130.
abbrev pub working : AgentRun
working = record waiting {
  status = RunStatus.running;
  worker_id = some 11;
  lease_expires_at = some 130;
  heartbeat_at = some 30;
  attempt_count = 1;
  started_at = some 30;
}

abbrev pub cancelled : AgentRun
cancelled = record waiting {
  status = RunStatus.cancelled;
  error_code = some "RUN_CANCELLED";
  cancel_requested = true;
  finished_at = some 40;
}

abbrev pub stopping : AgentRun
stopping = record working { cancel_requested = true }

abbrev pub queued_event : RunEvent
queued_event = record {
  run_id = 5;
  sequence = 1;
  event_type = EventType.run_queued;
  data_json = EventData.queued RunStatus.pending 2;
  created_at = 10;
}

abbrev pub db_with : AgentRun → Db
db_with run = record {
  sessions = trip ∷ [];
  messages = question ∷ [];
  runs = run ∷ [];
  events = queued_event ∷ [];
}

abbrev pub new_question : Submission
new_question = record {
  content = "Osaka";
  max_attempts = 2;
  planning_context = none;
  trace_context = none;
  message_id = 4;
  run_id = 6;
}

abbrev pub timeout : Failure
timeout = record {
  error_code = "TIMEOUT";
  error_message = "late";
  retryable = true;
  retry_delay_seconds = 5;
}

abbrev pub answer : Json
answer = Json.obj (field "answer" (Json.str "Go") end)

pub waiting-IsValid : DbIsValid (db_with waiting)
waiting-IsValid = record {
  rows = (ground arith, tt);
  keys = (refl, tt);
  log = λ run_id. ground arith;
}

pub working-IsValid : DbIsValid (db_with working)
working-IsValid = record {
  rows = (ground arith, tt);
  keys = (refl, tt);
  log = λ run_id. ground arith;
}

pub stopping-IsValid : DbIsValid (db_with stopping)
stopping-IsValid = record {
  rows = (ground arith, tt);
  keys = (refl, tt);
  log = λ run_id. ground arith;
}

pub cancelled-IsValid : DbIsValid (db_with cancelled)
cancelled-IsValid = record {
  rows = (ground arith, tt);
  keys = (refl, tt);
  log = λ run_id. ground arith;
}
