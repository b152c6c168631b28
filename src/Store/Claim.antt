-- ===== src/Store/Claim.antt =====
-- app/store.py: how a Worker comes by a Run and keeps it. `locked` tells the rows that another
-- transaction holds and that `SKIP LOCKED` passes over. Durations are in the unit of the clock.
use diy_agent.Prelude.{
  ℕ, suc, ◌+◌, String, Option, none, some, List, [], ◌∷◌, Bool, true, false, not, ◌&&◌, ◌||◌, ltb,
  leb, ◌==◌, Python, keep_if, take, length, or_default, holds, map, if◌then◌else◌,
}
use diy_agent.Schemas.{v1}
use diy_agent.Models.{AgentRun, RunStatus, EventType, EventData, Db, is_running, is_pending}
use diy_agent.RunResults.{fail_result}
use diy_agent.Store.Tables.{
  Result, ok, ◌>>=◌, answer_with, find_run, save_run, lease_is_active, due, retry_due,
}
use diy_agent.Store.Events.{append_event}
use diy_agent.Store.Enqueue.{created_before}

abbrev pub cancelled_code : String
cancelled_code = "RUN_CANCELLED"

abbrev pub cancelled_message : String
cancelled_message = "用户已请求取消任务。"

-- The `WHERE` clause of `_mark_terminal_expired_runs`.
abbrev pub is_exhausted : ℕ → AgentRun → Bool
is_exhausted now run =
    is_running run.status
    && due run.lease_expires_at now
    && (run.cancel_requested || leb run.max_attempts run.attempt_count)

-- The row that one round of the loop of `_mark_terminal_expired_runs` writes.
unfoldable pub expired_run : Python → ℕ → AgentRun → AgentRun
expired_run py now run =
    let code : String = if run.cancel_requested then cancelled_code else "MAX_ATTEMPTS_EXCEEDED" in
    let message : String =
      if run.cancel_requested then cancelled_message else "Worker 租约过期且已达到最大尝试次数。" in
    record run {
      status = if run.cancel_requested then RunStatus.cancelled else RunStatus.failed;
      error_code = some code;
      error_message = some message;
      output_json = some (v1 (fail_result py run.output_json code message true now));
      worker_id = none;
      lease_expires_at = none;
      finished_at = some now;
      updated_at = now;
    }

-- One round of that loop.
unfoldable pub mark_expired_run : Python → ℕ → AgentRun → Db → Result Db
unfolding expired_run
mark_expired_run py now run db =
    let row = expired_run py now run in
    append_event (save_run db row) run.id
      (if run.cancel_requested then EventType.run_cancelled else EventType.run_failed)
      (EventData.expired row.status row.error_code row.error_message) none now

-- The loop over the rows that the query selected.
unfoldable pub mark_expired_runs : Python → ℕ → List AgentRun → Db → Result Db
mark_expired_runs py now [] db = ok db
mark_expired_runs py now (run ∷ rest) db =
    mark_expired_run py now run db >>= λ marked. mark_expired_runs py now rest marked

-- `_mark_terminal_expired_runs`
unfoldable pub mark_terminal_expired_runs : Python → (ℕ → Bool) → ℕ → Db → Result Db
mark_terminal_expired_runs py locked now db =
    mark_expired_runs py now
      (take 20 (keep_if (λ run. not (locked run.id) && is_exhausted now run) db.runs)) db

-- `pending_ready`
abbrev pub pending_ready : ℕ → AgentRun → Bool
pending_ready now run = is_pending run.status && retry_due run.next_retry_at now

-- `expired_running`
abbrev pub expired_running : ℕ → AgentRun → Bool
expired_running now run =
    is_running run.status && due run.lease_expires_at now && ltb run.attempt_count run.max_attempts

-- The `WHERE` clause of `claim_next_run`.
abbrev pub is_claimable : ℕ → AgentRun → Bool
is_claimable now run =
    not run.cancel_requested && (pending_ready now run || expired_running now run)

abbrev pub earlier_run : AgentRun → Option AgentRun → AgentRun
earlier_run run none = run
earlier_run run (some other) = if created_before other run then other else run

-- `ORDER BY created_at, id LIMIT 1`
abbrev pub oldest_run : List AgentRun → Option AgentRun
oldest_run [] = none
oldest_run (run ∷ runs) = some (earlier_run run (oldest_run runs))

-- The Run that the query of `claim_next_run` selects.
unfoldable pub next_claimable : (ℕ → Bool) → ℕ → List AgentRun → Option AgentRun
next_claimable locked now runs =
    oldest_run (keep_if (λ run. not (locked run.id) && is_claimable now run) runs)

-- The row that a claim writes.
unfoldable pub claimed_run : ℕ → ℕ → ℕ → AgentRun → AgentRun
claimed_run worker_id lease_seconds now run = record run {
  status = RunStatus.running;
  worker_id = some worker_id;
  heartbeat_at = some now;
  lease_expires_at = some (now + lease_seconds);
  next_retry_at = none;
  attempt_count = suc run.attempt_count;
  started_at = some (or_default run.started_at now);
  finished_at = none;
  updated_at = now;
}

-- The event that a claim logs: another attempt after a lost Worker, a retry, or the first attempt.
abbrev pub claim_event : AgentRun → EventType
claim_event run =
    if is_running run.status
    then EventType.run_reclaimed
    else if ltb 0 run.attempt_count
    then EventType.run_retry_started
    else EventType.run_started

-- The part of `claim_next_run` after the query; `checked_at` is when the event's guard looks at
-- the clock.
unfoldable pub claim_run : Db → ℕ → ℕ → ℕ → ℕ → AgentRun → Result (Option ℕ × Db)
unfolding claimed_run
claim_run db worker_id lease_seconds now checked_at run =
    let row = claimed_run worker_id lease_seconds now run in
    answer_with (some run.id) (
      append_event (save_run db row) run.id (claim_event run)
        (EventData.claimed RunStatus.running worker_id row.attempt_count (now + lease_seconds))
        (some worker_id) checked_at)

-- The part of `claim_next_run` after `_mark_terminal_expired_runs`.
unfoldable pub claim_next : Db → ℕ → ℕ → (ℕ → Bool) → ℕ → ℕ → Result (Option ℕ × Db)
claim_next db worker_id lease_seconds locked now checked_at =
    elim (next_claimable locked now db.runs) [
      | none ↦ ok (none, db)
      | some run ↦ claim_run db worker_id lease_seconds now checked_at run
    ]

-- `claim_next_run`
unfoldable pub claim_next_run :
    Python → Db → ℕ → ℕ → (ℕ → Bool) → ℕ → ℕ → ℕ → Result (Option ℕ × Db)
claim_next_run py db worker_id lease_seconds locked marked_at now checked_at =
    mark_terminal_expired_runs py locked marked_at db >>= λ marked.
    claim_next marked worker_id lease_seconds locked now checked_at

-- The `WHERE` clause of `renew_lease`.
abbrev pub is_renewable : ℕ → ℕ → ℕ → AgentRun → Bool
is_renewable run_id worker_id now run =
    run.id == run_id
    && is_running run.status
    && holds run.worker_id worker_id
    && lease_is_active run.lease_expires_at now

-- The row that `renew_lease` writes.
unfoldable pub renewed_run : ℕ → ℕ → AgentRun → AgentRun
renewed_run lease_seconds now run = record run {
  heartbeat_at = some now;
  lease_expires_at = some (now + lease_seconds);
  updated_at = now;
}

-- `renew_lease`: one `UPDATE`, and whether it met exactly one row.
unfoldable pub renew_lease : Db → ℕ → ℕ → ℕ → ℕ → Bool × Db
unfolding renewed_run
renew_lease db run_id worker_id lease_seconds now =
    let met = λ (run : AgentRun). is_renewable run_id worker_id now run in
    (
      length (keep_if met db.runs) == 1,
      record db {
        runs = map (λ run. if met run then renewed_run lease_seconds now run else run) db.runs;
      },
    )

-- `worker_has_lease`
unfoldable pub worker_has_lease : Db → ℕ → ℕ → ℕ → Bool
worker_has_lease db run_id worker_id now = elim (find_run run_id db.runs) [
  | none ↦ false
  | some run ↦
      is_running run.status
      && lease_is_active run.lease_expires_at now
      && holds run.worker_id worker_id
]

-- `is_cancel_requested`
unfoldable pub is_cancel_requested : Db → ℕ → Bool
is_cancel_requested db run_id = elim (find_run run_id db.runs) [
  | none ↦ false
  | some run ↦ run.cancel_requested
]
