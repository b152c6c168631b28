-- ===== src/Store/Machine.antt =====
-- The state machine that a row of `agent_runs` goes through: the specification that the
-- transactions of app/store.py refine.
pub mod Steps
use diy_agent.Prelude.{
  ℕ, suc, ◌+◌, ◌≤◌, ◌<◌, ◌≡◌, Option, none, some, Bool, true, false, Python, is_some, arith,
}
use diy_agent.Schemas.{RunResult, StoredOutput}
use diy_agent.Models.{AgentRun, RunStatus, is_pending, is_running, is_terminal}
use diy_agent.Store.Claim.{
  is_exhausted, is_claimable, expired_run, claimed_run, renewed_run, cancelled_code,
}
use diy_agent.Store.Finish.{
  Failure, may_retry, cancelled_run, succeeded_run, retried_run, failed_run, cancelled_pending_run,
}

-- One transition of a row.
pub data RunStep (run row : AgentRun) : Type 0 where
  claim :
      (worker_id lease_seconds now : ℕ)
      → is_claimable now run ≡ true
      → row ≡ claimed_run worker_id lease_seconds now run
      → RunStep run row
  renew :
      (lease_seconds now : ℕ)
      → is_running run.status ≡ true
      → row ≡ renewed_run lease_seconds now run
      → RunStep run row
  report :
      (output : Option StoredOutput) (now : ℕ)
      → is_running run.status ≡ true
      → row ≡ record run { output_json = output; updated_at = now }
      → RunStep run row
  succeed :
      (output : RunResult) (message_id now : ℕ)
      → is_running run.status ≡ true
      → run.cancel_requested ≡ false
      → row ≡ succeeded_run output message_id now run
      → RunStep run row
  give_up :
      (py : Python) (now : ℕ)
      → is_running run.status ≡ true
      → run.cancel_requested ≡ true
      → row ≡ cancelled_run py now run
      → RunStep run row
  retry :
      (py : Python) (failure : Failure) (now : ℕ)
      → is_running run.status ≡ true
      → run.cancel_requested ≡ false
      → may_retry failure run ≡ true
      → row ≡ retried_run py failure now run
      → RunStep run row
  fail :
      (py : Python) (failure : Failure) (now : ℕ)
      → is_running run.status ≡ true
      → run.cancel_requested ≡ false
      → row ≡ failed_run py failure now run
      → RunStep run row
  expire :
      (py : Python) (now : ℕ)
      → is_exhausted now run ≡ true
      → row ≡ expired_run py now run
      → RunStep run row
  request :
      (now : ℕ)
      → is_running run.status ≡ true
      → row ≡ record run { cancel_requested = true; updated_at = now }
      → RunStep run row
  cancel :
      (py : Python) (now : ℕ)
      → is_pending run.status ≡ true
      → row ≡ cancelled_pending_run py now run
      → RunStep run row

-- No Worker and no lease.
abbrev pub IsFree : AgentRun → Type 0
IsFree run = (run.worker_id ≡ none) × (run.lease_expires_at ≡ none)

-- A Run that has ended keeps the time, and its attempts stay within the limit.
abbrev pub HasEnded : AgentRun → Type 0
HasEnded run =
    IsFree run × (is_some run.finished_at ≡ true) × (run.attempt_count ≤ run.max_attempts)

-- What holds of a row in each status. No transaction puts a Run into `WAITING_FOR_USER`.
abbrev pub StatusIsValid : RunStatus → AgentRun → Type 0
StatusIsValid RunStatus.pending run =
    IsFree run
    × (run.finished_at ≡ none)
    × (run.attempt_count < run.max_attempts)
    × (run.cancel_requested ≡ false)
    × (run.assistant_message_id ≡ none)
StatusIsValid RunStatus.running run =
    (is_some run.worker_id ≡ true)
    × (is_some run.lease_expires_at ≡ true)
    × (run.finished_at ≡ none)
    × (0 < run.attempt_count)
    × (run.attempt_count ≤ run.max_attempts)
    × (run.assistant_message_id ≡ none)
StatusIsValid RunStatus.waiting_for_user run = ⊥
StatusIsValid RunStatus.succeeded run =
    HasEnded run
    × (is_some run.assistant_message_id ≡ true)
    × (run.error_code ≡ none)
    × (run.cancel_requested ≡ false)
StatusIsValid RunStatus.failed run =
    HasEnded run
    × (is_some run.error_code ≡ true)
    × (run.assistant_message_id ≡ none)
    × (run.cancel_requested ≡ false)
StatusIsValid RunStatus.cancelled run =
    HasEnded run
    × (run.error_code ≡ some cancelled_code)
    × (run.assistant_message_id ≡ none)
    × (run.cancel_requested ≡ true)

abbrev pub RunIsValid : AgentRun → Type 0
RunIsValid run = StatusIsValid run.status run
