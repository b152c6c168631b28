-- ===== src/Worker/Ends.antt =====
-- app/worker.py: what an attempt leaves of its Run.
use diy_agent.Prelude.{
  ℕ, ◌≡◌, ◌⊎◌, refl, ap, ◌∙◌, some, Bool, true, false, not, ◌&&◌, ◌+◌, ltb, leb, Json, List, Python,
  inl, inr, arith,
}
use diy_agent.Schemas.{RunResult}
use diy_agent.Models.{Db, AgentRun, Message, is_running}
use diy_agent.Store.Tables.{Result, err, worker_lease_lost, find_run, owns}
use diy_agent.Store.Claim.{is_claimable}
use diy_agent.Store.Finish.{
  Failure, may_retry, complete_run, fail_run, write_owned, failure_row, cancelled_run,
  succeeded_run, retried_run, failed_run,
}
use diy_agent.Store.Leases.Outcomes.{IsCompleted, complete_run-settles, fail_run-requeues}
use diy_agent.Worker.{
  stored_or, completed_or, AttemptEnd, answered, lease_lost, record_failure_if_owned, failure_of,
  crash, finish_attempt, normalize_answer,
}

-- Whether an attempt ended in a failure that is recorded.
abbrev pub is_failure : AttemptEnd → Bool
is_failure (answered output) = false
is_failure lease_lost = false
is_failure _ = true

-- Whether another attempt may end better.
abbrev pub may_pass : AttemptEnd → Bool
may_pass (AttemptEnd.tool_failed code message retryable) = retryable
may_pass AttemptEnd.crashed = true
may_pass _ = false

module _ (py : Python) (db : Db) (k w : ℕ) (run : AgentRun)
    (found : find_run k db.runs ≡ some run) where
  cancelled_run-running : (now : ℕ) → is_running (cancelled_run py now run).status ≡ false
  unfolding cancelled_run
  cancelled_run-running now = refl

  succeeded_run-running :
      (final : RunResult) (message_id now : ℕ)
      → is_running (succeeded_run final message_id now run).status ≡ false
  unfolding succeeded_run
  succeeded_run-running final message_id now = refl

  IsCompleted-running :
      (output : Json) (message_id now : ℕ) (row : AgentRun) (messages : List Message)
      → IsCompleted py output message_id now run db.messages row messages
      → is_running row.status ≡ false
  IsCompleted-running output message_id now row messages (inl (stop, e, _)) =
      rw e (cancelled_run-running now)
  IsCompleted-running output message_id now row messages (inr (final, go, made, e, _)) =
      rw e (succeeded_run-running final message_id now)

  failure_row-running :
      (failure : Failure) (now : ℕ) → is_running (failure_row py failure now run).status ≡ false
  unfolding failure_row cancelled_run retried_run failed_run
  failure_row-running failure now = ground arith

  failure-released :
      (failure : Failure) (now : ℕ)
      → owns run w now ≡ true
      → (row : AgentRun) × (find_run k (record_failure_if_owned py db k w failure now).runs
          ≡ some row)
        × (is_running row.status ≡ false)
  unfolding record_failure_if_owned
  failure-released failure now mine =
      let (after, row, e, there, is_row, claims, lost) =
        fail_run-requeues py db k w failure now run found mine in
      (
        row,
        ap (λ r. find_run k (stored_or db r).runs) e ∙ there,
        rw is_row (failure_row-running failure now),
      )

  -- A Worker that holds the lease at the end of its attempt never leaves the Run running: whether the
  -- agent answered, was cancelled, exceeded its limits, or a tool or anything else failed, the Run
  -- is then ended or back in the queue.
  pub finish_attempt-releases :
      (delay message_id now failed_at : ℕ) (ended : AttemptEnd)
      → owns run w now ≡ true
      → owns run w failed_at ≡ true
      → (ended ≡ lease_lost)
        ⊎ ((row : AgentRun) × (find_run k
                (finish_attempt py db k w delay ended message_id now failed_at).runs
              ≡ some row)
            × (is_running row.status ≡ false))
  unfolding finish_attempt failure_of
  finish_attempt-releases delay message_id now failed_at (answered output) mine still =
      let failed = record_failure_if_owned py db k w (crash delay) failed_at in
      elim (complete_run-settles py db k w (normalize_answer py output) message_id now run found
        mine) [
          | inl (go, missing, e) ↦
              let (row, there, stopped) = failure-released (crash delay) failed_at still in
              inr (row, ap (λ r. find_run k (completed_or db failed r).runs) e ∙ there, stopped)
          | inr (after, row, e, there, completed, lost) ↦ inr (
            row,
            ap (λ r. find_run k (completed_or db failed r).runs) e ∙ there,
            IsCompleted-running (normalize_answer py output) message_id now row after.messages
                completed,
          )
        ]
  finish_attempt-releases delay message_id now failed_at lease_lost mine still = inl refl
  finish_attempt-releases delay message_id now failed_at (AttemptEnd.run_cancelled message) mine
        still =
      inr (failure-released _ failed_at still)
  finish_attempt-releases delay message_id now failed_at (AttemptEnd.tool_failed c m r) mine still =
      inr (failure-released _ failed_at still)
  finish_attempt-releases delay message_id now failed_at (AttemptEnd.limit_exceeded m) mine still =
      inr (failure-released _ failed_at still)
  finish_attempt-releases delay message_id now failed_at AttemptEnd.crashed mine still =
      inr (failure-released _ failed_at still)

  retried-claims :
      (failure : Failure) (now : ℕ)
      → owns run w now ≡ true
      → (row : AgentRun) × (find_run k (record_failure_if_owned py db k w failure now).runs
          ≡ some row)
        × ((later : ℕ)
            → is_claimable later row ≡ (
                not run.cancel_requested
                && may_retry failure run
                && leb (now + failure.retry_delay_seconds) later))
  unfolding record_failure_if_owned
  retried-claims failure now mine =
      let (after, row, e, there, is_row, claims, lost) =
        fail_run-requeues py db k w failure now run found mine in
      (row, ap (λ r. find_run k (stored_or db r).runs) e ∙ there, claims)

  -- A Worker that holds the lease when its attempt has failed leaves a Run that is tried again
  -- exactly if the exception may pass (any that is not the Worker's own, or one of a tool that says
  -- so), its user did not cancel it and an attempt is left, and from the end of the delay on.
  pub finish_attempt-retries :
      (delay message_id now failed_at : ℕ) (ended : AttemptEnd)
      → is_failure ended ≡ true
      → owns run w failed_at ≡ true
      → (row : AgentRun) × (find_run k
            (finish_attempt py db k w delay ended message_id now failed_at).runs
          ≡ some row)
        × ((later : ℕ)
            → is_claimable later row ≡ (
                not run.cancel_requested
                && (may_pass ended && ltb run.attempt_count run.max_attempts)
                && leb (failed_at + delay) later))
  unfolding finish_attempt failure_of
  finish_attempt-retries delay message_id now failed_at (answered output) failed mine =
      absurd (ground (arith, failed))
  finish_attempt-retries delay message_id now failed_at lease_lost failed mine =
      absurd (ground (arith, failed))
  finish_attempt-retries delay message_id now failed_at (AttemptEnd.run_cancelled m) failed mine =
      retried-claims _ failed_at mine
  finish_attempt-retries delay message_id now failed_at (AttemptEnd.tool_failed c m r) failed mine =
      retried-claims _ failed_at mine
  finish_attempt-retries delay message_id now failed_at (AttemptEnd.limit_exceeded m) failed mine =
      retried-claims _ failed_at mine
  finish_attempt-retries delay message_id now failed_at AttemptEnd.crashed failed mine =
      retried-claims _ failed_at mine

  refused :
      (now : ℕ)
      → owns run w now ≡ false
      → (write : AgentRun → Result Db) → write_owned db k w now write ≡ err worker_lease_lost
  refused now lost write = ground arith

  failure-discarded :
      (failure : Failure) (now : ℕ)
      → owns run w now ≡ false
      → record_failure_if_owned py db k w failure now ≡ db
  unfolding record_failure_if_owned fail_run
  failure-discarded failure now lost = ap (stored_or db) (refused now lost _)

  -- A Worker that has lost the lease by the end of its attempt changes nothing, however the attempt
  -- ended.
  pub finish_attempt-discards :
      (delay message_id now failed_at : ℕ) (ended : AttemptEnd)
      → owns run w now ≡ false
      → owns run w failed_at ≡ false
      → finish_attempt py db k w delay ended message_id now failed_at ≡ db
  unfolding finish_attempt failure_of complete_run
  finish_attempt-discards delay message_id now failed_at (answered output) lost still =
      ap (completed_or db (record_failure_if_owned py db k w (crash delay) failed_at))
        (refused now lost _)
  finish_attempt-discards delay message_id now failed_at lease_lost lost still = refl
  finish_attempt-discards delay message_id now failed_at (AttemptEnd.run_cancelled message) lost
        still =
      failure-discarded _ failed_at still
  finish_attempt-discards delay message_id now failed_at (AttemptEnd.tool_failed c m r) lost still =
      failure-discarded _ failed_at still
  finish_attempt-discards delay message_id now failed_at (AttemptEnd.limit_exceeded m) lost still =
      failure-discarded _ failed_at still
  finish_attempt-discards delay message_id now failed_at AttemptEnd.crashed lost still =
      failure-discarded _ failed_at still
