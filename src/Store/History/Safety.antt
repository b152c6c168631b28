-- ===== src/Store/History/Safety.antt =====
-- What holds of the tables after any history.
use diy_agent.Prelude.{
  ℕ, ◌≤◌, ◌≡◌, ◌⊎◌, String, Option, List, some, Python, true, arith, Option-cases, inl, inr,
}
use diy_agent.Models.{Db, AgentRun, RunStatus, is_terminal}
use diy_agent.Context.Tokens.{Encoding}
use diy_agent.Context.Budget.{ContextPolicy}
use diy_agent.Context.Prepare.{
  PreparedContext, prepared, previous_messages, prepare_session_context,
}
use diy_agent.Store.Tables.{find_run, find_session}
use diy_agent.Store.Machine.{RunIsValid}
use diy_agent.Store.Progress.{record_context_snapshot, record_tool_snapshot}
use diy_agent.Store.Writes.{Writes, here, touch, DbIsValid, Writes-trans}
use diy_agent.Store.Writes.Rows.{find_run-All}
use diy_agent.Store.Writes.Invariant.{Writes-IsValid}
use diy_agent.Store.Writes.Tracks.{
  Writes-Tracks, RunSteps-terminal, RunSteps-attempts, RunSteps-IsStopping, IsStopping,
}
use diy_agent.Store.Refines.Commit.{append_event-Write}
use diy_agent.Store.Refines.Worker.{
  enqueue_message-Writes, record_output-Writes, complete_run-Writes, fail_run-Writes,
  request_cancellation-Writes,
}
use diy_agent.Store.Refines.Claim.{claim_next_run-Writes}
use diy_agent.Store.Refines.Renewal.{renew_lease-Writes}
use diy_agent.Store.History.{
  Transaction, enqueue, append, claim, renew, context, tool, complete, fail, cancel, prepare,
  History, start, then_do,
}

attempts_bounded : (run : AgentRun) → RunIsValid run → run.attempt_count ≤ run.max_attempts
attempts_bounded run v = ground arith

-- In a valid row only a running or a cancelled Run carries a request.
stopping :
    (run : AgentRun)
    → RunIsValid run
    → run.cancel_requested ≡ true
    → (run.status ≡ RunStatus.running) ⊎ (run.status ≡ RunStatus.cancelled)
stopping run v h = ground arith

-- Preparing a context leaves the Runs and the log alone.
prepare-rows :
    (py : Python) (squeeze : String → String) (encoding : Option Encoding) (db : Db)
    (session_id message_id : ℕ) (prompt : String) (policy : ContextPolicy) (memories : List String)
    (now : ℕ) {context : PreparedContext} {after : Db}
    → prepare_session_context py squeeze encoding db session_id message_id prompt policy memories
        now
      ≡ prepared context after
    → (after.runs ≡ db.runs) × (after.events ≡ db.events)
unfolding prepare_session_context
prepare-rows py squeeze encoding db session_id message_id prompt policy memories now {context}
      {after} h =
    elim (Option-cases (find_session session_id db.sessions)) [
      | inl missing ↦ absurd (ground arith)
      | inr (conversation, found) ↦
          elim (Option-cases (previous_messages db session_id message_id)) [
            | inl missing ↦ absurd (ground arith)
            | inr (previous, there) ↦ (ground arith, ground arith)
          ]
    ]

module _ {py : Python} where
  Transaction-Writes : {db after : Db} → DbIsValid db → Transaction py db after → Writes db after
  unfolding record_context_snapshot record_tool_snapshot
  Transaction-Writes {db} v (enqueue s u m n a fresh p h) =
      enqueue_message-Writes py db s u m n fresh p h
  Transaction-Writes {db} v (append k t p o n h) =
      Writes.next here (append_event-Write db k t p o n h)
  Transaction-Writes {db} v (claim w l locked m n c a h) =
      claim_next_run-Writes py db w l locked m n c v h
  Transaction-Writes {db} v (renew k w l n e) = rw e (renew_lease-Writes db k w l n v)
  Transaction-Writes {db} v (context k w u n c h) = record_output-Writes db k w _ _ _ n c h
  Transaction-Writes {db} v (tool k w t s ok p n c h) = record_output-Writes db k w _ _ _ n c h
  Transaction-Writes {db} v (complete k w o m n a h) = complete_run-Writes py db k w o m n h
  Transaction-Writes {db} v (fail k w f n a h) = fail_run-Writes py db k w f n h
  Transaction-Writes {db} v (cancel k u n a h) = request_cancellation-Writes py db k u n v h
  Transaction-Writes {db} v (prepare sq e s m p o ms n c h) =
      let (runs, events) = prepare-rows py sq e db s m p o ms n h in
      Writes.next here (touch runs events)

  -- Every history is a sequence of transitions of the rows and of appended events.
  pub History-Writes : {db after : Db} → DbIsValid db → History py db after → Writes db after
  History-Writes v start = here
  History-Writes v (then_do h t) =
      let ws = History-Writes v h in Writes-trans ws (Transaction-Writes (Writes-IsValid ws v) t)

  -- After any history the tables are valid again.
  pub History-IsValid : {db after : Db} → DbIsValid db → History py db after → DbIsValid after
  History-IsValid v h = Writes-IsValid (History-Writes v h) v

  -- A Run that has succeeded, failed or been cancelled is never changed again: its row is the same
  -- after any history.
  pub History-terminal :
      {db after : Db} (k : ℕ) (run : AgentRun)
      → DbIsValid db
      → History py db after
      → find_run k db.runs ≡ some run
      → is_terminal run.status ≡ true
      → find_run k after.runs ≡ some run
  History-terminal k run v h found over =
      let (later, there, steps) = Writes-Tracks k run (History-Writes v h) found in
      rw (← RunSteps-terminal steps over) there

  -- Over any history a Run is never tried more often than its limit, the limit does not change,
  -- and no attempt is forgotten.
  pub History-attempts :
      {db after : Db} (k : ℕ) (run : AgentRun)
      → DbIsValid db
      → History py db after
      → find_run k db.runs ≡ some run
      → (later : AgentRun) × (find_run k after.runs ≡ some later)
        × (later.max_attempts ≡ run.max_attempts)
        × (run.attempt_count ≤ later.attempt_count)
        × (later.attempt_count ≤ run.max_attempts)
  History-attempts {db} {after} k run v h found =
      let (later, there, steps) = Writes-Tracks k run (History-Writes v h) found in
      let valid : RunIsValid later =
        find_run-All RunIsValid k after.runs (History-IsValid v h).rows there in
      let bounded : later.attempt_count ≤ later.max_attempts = attempts_bounded later valid in
      let (same, more) = RunSteps-attempts steps in (later, there, same, more, omega arith)

  -- Once the cancellation of a Run was requested, the request stands and the Run is running or
  -- cancelled after any history, and it is not tried again: it is never put back or claimed, and
  -- it neither succeeds nor fails.
  pub History-cancelled :
      {db after : Db} (k : ℕ) (run : AgentRun)
      → DbIsValid db
      → History py db after
      → find_run k db.runs ≡ some run
      → run.cancel_requested ≡ true
      → (later : AgentRun) × (find_run k after.runs ≡ some later)
        × IsStopping later
        × (later.attempt_count ≡ run.attempt_count)
  History-cancelled {db} {after} k run v h found requested =
      let (later, there, steps) = Writes-Tracks k run (History-Writes v h) found in
      let (still, same) =
        RunSteps-IsStopping steps
          (requested, stopping run (find_run-All RunIsValid k db.runs v.rows found) requested) in
      (later, there, still, same)
