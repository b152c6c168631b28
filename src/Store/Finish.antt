-- ===== src/Store/Finish.antt =====
-- app/store.py: how a Run ends, is put back for a retry, or is cancelled by its user.
use diy_agent.Prelude.{
  ℕ, ◌+◌, String, Option, none, some, [], ◌∷◌, ◌++◌, Bool, true, false, ◌&&◌, ltb, Json, Python,
  or_default, is_some, if◌then◌else◌,
}
use diy_agent.Schemas.{RunResult, v1}
use diy_agent.Models.{
  AgentRun, MessageRole, RunStatus, EventType, EventData, Db, is_pending, is_terminal,
}
use diy_agent.RunResults.{complete_result, fail_result, coerce_run_result}
use diy_agent.Store.Tables.{
  Result, ok, err, answer_with, find_run, save_run, touch_session, owns, worker_lease_lost,
  bad_answer,
}
use diy_agent.Store.Events.{append_event}
use diy_agent.Store.Enqueue.{new_message, owned_session}
use diy_agent.Store.Claim.{cancelled_code, cancelled_message}

-- `_locked_run`, the answer `False` for a missing Run, and the guard; then the write.
abbrev pub write_owned : Db → ℕ → ℕ → ℕ → (AgentRun → Result Db) → Result (Bool × Db)
write_owned db run_id worker_id now write = elim (find_run run_id db.runs) [
  | none ↦ ok (false, db)
  | some run ↦
      if owns run worker_id now then answer_with true (write run) else err worker_lease_lost
]

-- The row of a Run that its Worker gives up because its user cancelled it.
unfoldable pub cancelled_run : Python → ℕ → AgentRun → AgentRun
cancelled_run py now run = record run {
  status = RunStatus.cancelled;
  error_code = some cancelled_code;
  error_message = some cancelled_message;
  output_json =
      some (v1 (fail_result py run.output_json cancelled_code cancelled_message true now));
  finished_at = some now;
  worker_id = none;
  lease_expires_at = none;
  updated_at = now;
}

-- The row of a Run that succeeded.
unfoldable pub succeeded_run : RunResult → ℕ → ℕ → AgentRun → AgentRun
succeeded_run output message_id now run = record run {
  assistant_message_id = some message_id;
  output_json = some (v1 output);
  status = RunStatus.succeeded;
  error_code = none;
  error_message = none;
  worker_id = none;
  lease_expires_at = none;
  heartbeat_at = some now;
  finished_at = some now;
  updated_at = now;
}

-- The branch of `complete_run` for a Run that is not cancelled, from its completed result on: the
-- answer and the row.
unfoldable pub store_success : Db → AgentRun → RunResult → ℕ → ℕ → Db
unfolding succeeded_run new_message
store_success db run final_output message_id now =
    let assistant =
      new_message message_id run.session_id MessageRole.assistant final_output.assistant_answer
        now in
    save_run
      (record db {
        messages = db.messages ++ assistant ∷ [];
        sessions = touch_session run.session_id now db.sessions;
      })
      (succeeded_run final_output message_id now run)

-- The rest of that branch, where there is a completed result. The `TypeError` of `complete_result`
-- leaves the transaction, which is rolled back.
unfoldable pub success_with : Db → ℕ → AgentRun → ℕ → ℕ → Option RunResult → Result Db
unfolding store_success
success_with db run_id run message_id now none = err bad_answer
success_with db run_id run message_id now (some final_output) =
    append_event (store_success db run final_output message_id now) run_id EventType.run_succeeded
      (EventData.status_only RunStatus.succeeded) none now

-- `complete_run`; `message_id` is the identifier of the assistant's message.
unfoldable pub complete_run : Python → Db → ℕ → ℕ → Json → ℕ → ℕ → Result (Bool × Db)
unfolding cancelled_run success_with
complete_run py db run_id worker_id output message_id now =
    write_owned db run_id worker_id now λ run.
      if run.cancel_requested
      then append_event (save_run db (cancelled_run py now run)) run_id EventType.run_cancelled
          (EventData.status_only RunStatus.cancelled) none now
      else success_with db run_id run message_id now (complete_result py run.output_json output now)

-- What a Worker reports of a failed attempt.
pub record Failure : Type 0 where
  pub error_code : String
  pub error_message : String
  pub retryable : Bool
  pub retry_delay_seconds : ℕ

-- `retryable and run.attempt_count < run.max_attempts`
abbrev pub may_retry : Failure → AgentRun → Bool
may_retry failure run = failure.retryable && ltb run.attempt_count run.max_attempts

-- The row of a Run that is put back into the queue.
unfoldable pub retried_run : Python → Failure → ℕ → AgentRun → AgentRun
retried_run py failure now run = record run {
  status = RunStatus.pending;
  error_code = some failure.error_code;
  error_message = some failure.error_message;
  next_retry_at = some (now + failure.retry_delay_seconds);
  output_json =
      some (v1 (fail_result py run.output_json failure.error_code failure.error_message false now));
  worker_id = none;
  lease_expires_at = none;
  updated_at = now;
}

-- The row of a Run whose last attempt failed.
unfoldable pub failed_run : Python → Failure → ℕ → AgentRun → AgentRun
failed_run py failure now run = record run {
  status = RunStatus.failed;
  error_code = some failure.error_code;
  error_message = some failure.error_message;
  finished_at = some now;
  output_json =
      some (v1 (fail_result py run.output_json failure.error_code failure.error_message true now));
  worker_id = none;
  lease_expires_at = none;
  updated_at = now;
}

-- The row and the event of a failed attempt: cancelled, to be retried, or failed for good.
unfoldable pub failure_row : Python → Failure → ℕ → AgentRun → AgentRun
unfolding cancelled_run retried_run failed_run
failure_row py failure now run =
    if run.cancel_requested
    then cancelled_run py now run
    else if may_retry failure run
    then retried_run py failure now run
    else failed_run py failure now run

abbrev pub failure_event : Failure → AgentRun → EventType
failure_event failure run =
    if run.cancel_requested
    then EventType.run_cancelled
    else if may_retry failure run
    then EventType.run_retry_scheduled
    else EventType.run_failed

-- `fail_run`
unfoldable pub fail_run : Python → Db → ℕ → ℕ → Failure → ℕ → Result (Bool × Db)
unfolding failure_row
fail_run py db run_id worker_id failure now = write_owned db run_id worker_id now λ run.
    let row = failure_row py failure now run in
    append_event (save_run db row) run_id (failure_event failure run)
      (EventData.attempt_failed row.status row.error_code row.error_message row.attempt_count
        row.next_retry_at)
      none now

-- The Run, if it belongs to a session of the user.
unfoldable pub find_user_run : Db → ℕ → ℕ → Option AgentRun
find_user_run db run_id user_id = elim (find_run run_id db.runs) [
  | none ↦ none
  | some run ↦ if is_some (owned_session db run.session_id user_id) then some run else none
]

-- The row of a Run that its user cancels before any Worker has it.
unfoldable pub cancelled_pending_run : Python → ℕ → AgentRun → AgentRun
cancelled_pending_run py now run = record run {
  cancel_requested = true;
  status = RunStatus.cancelled;
  error_code = some cancelled_code;
  error_message = some cancelled_message;
  finished_at = some now;
  output_json =
      some (v1 (fail_result py run.output_json cancelled_code cancelled_message true now));
  updated_at = now;
}

-- The part of `request_cancellation` for a Run that has not ended.
unfoldable pub cancel_live_run : Python → Db → AgentRun → ℕ → Result (Option AgentRun × Db)
unfolding cancelled_pending_run
cancel_live_run py db run now =
    if is_pending run.status
    then (let row = cancelled_pending_run py now run in
        answer_with (some row) (
          append_event (save_run db row) run.id EventType.run_cancelled
            (EventData.status_only RunStatus.cancelled) none now))
    else (let row : AgentRun = record run { cancel_requested = true; updated_at = now } in
        answer_with (some row) (
          append_event (save_run db row) run.id EventType.cancellation_requested
            (EventData.status_only run.status) none now))

-- `request_cancellation`
unfoldable pub request_cancellation : Python → Db → ℕ → ℕ → ℕ → Result (Option AgentRun × Db)
unfolding find_user_run
request_cancellation py db run_id user_id now = elim (find_user_run db run_id user_id) [
  | none ↦ ok (none, db)
  | some run ↦ if is_terminal run.status then ok (some run, db) else cancel_live_run py db run now
]

-- The `output` of `run_to_dict`; the other entries are the columns themselves.
unfoldable pub run_output : Python → AgentRun → RunResult
run_output py run =
    coerce_run_result py run.output_json (some run.status)
      (some (or_default run.finished_at run.updated_at)) run.error_code run.error_message
      run.updated_at
