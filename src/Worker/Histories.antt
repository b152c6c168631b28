-- ===== src/Worker/Histories.antt =====
-- app/worker.py: an attempt as a sequence of transactions.
use diy_agent.Prelude.{
  ℕ, ◌≡◌, ◌⊎◌, refl, sym, subst, Json, String, Option, [], Bool, Python, inl, inr, Option-cases,
}
use diy_agent.Models.{Db}
use diy_agent.Store.Tables.{
  StoreError, run_not_found, worker_lease_lost, bad_answer, Result, ok, err,
}
use diy_agent.Store.Progress.{RunExecutionInput, get_run_execution_input, record_context_snapshot}
use diy_agent.Store.Finish.{Failure, complete_run, fail_run}
use diy_agent.Store.History.{context, complete, fail, prepare, History, start, then_do}
use diy_agent.Context.Tokens.{Encoding}
use diy_agent.Context.Budget.{ContextPolicy}
use diy_agent.Context.Prepare.{
  PreparedContext, ContextResult, prepared, not_found, ContextError, prepare_session_context,
}
use diy_agent.Worker.{
  AttemptEnd, answered, Clock, stored_or, completed_or, record_failure_if_owned, failure_of, crash,
  normalize_answer, finish_attempt, attempt, execute_run,
}

pub Result-cases :
    {A : Type 0} (r : Result A) → ((a : A) × (r ≡ ok a)) ⊎ ((e : StoreError) × (r ≡ err e))
Result-cases (ok a) = inl (a, refl)
Result-cases (err e) = inr (e, refl)

pub ContextResult-cases :
    (r : ContextResult)
    → ((c : PreparedContext) × (stored : Db) × (r ≡ prepared c stored))
      ⊎ ((e : ContextError) × (r ≡ not_found e))
ContextResult-cases (prepared c stored) = inl (c, stored, refl)
ContextResult-cases (not_found e) = inr (e, refl)

-- What the agent does with the tables goes through their transactions.
abbrev pub RunnerIsTransactional :
    Python → (RunExecutionInput → PreparedContext → Db → AttemptEnd × Db) → Type 0
RunnerIsTransactional py runner =
    (input : RunExecutionInput) (context : PreparedContext) (db : Db)
    → History py db (runner input context db).1

module _ {py : Python} where
  pub History-trans :
      {db mid after : Db} → History py db mid → History py mid after → History py db after
  History-trans h start = h
  History-trans h (then_do more t) = then_do (History-trans h more) t

  failure-History :
      (db : Db) (k w : ℕ) (failure : Failure) (now : ℕ)
      → History py db (record_failure_if_owned py db k w failure now)
  unfolding record_failure_if_owned
  failure-History db k w failure now = elim (Result-cases (fail_run py db k w failure now)) [
    | inl (done, e) ↦
        subst (λ r. History py db (stored_or db r)) (sym e)
          (then_do start (fail k w failure now done.0 e))
    | inr (lost, e) ↦ subst (λ r. History py db (stored_or db r)) (sym e) start
  ]

  completed-History :
      (db failed : Db) (k w : ℕ) (output : Json) (message_id now : ℕ)
      → History py db failed
      → History py db (completed_or db failed (complete_run py db k w output message_id now))
  completed-History db failed k w output message_id now h =
      elim (Result-cases (complete_run py db k w output message_id now)) [
        | inl (done, e) ↦
            subst (λ r. History py db (completed_or db failed r)) (sym e)
              (then_do start (complete k w output message_id now done.0 e))
        | inr (worker_lease_lost, e) ↦
            subst (λ r. History py db (completed_or db failed r)) (sym e) start
        | inr (run_not_found, e) ↦ subst (λ r. History py db (completed_or db failed r)) (sym e) h
        | inr (bad_answer, e) ↦ subst (λ r. History py db (completed_or db failed r)) (sym e) h
      ]

  finish_attempt-History :
      (db : Db) (k w delay : ℕ) (ended : AttemptEnd) (message_id now failed_at : ℕ)
      → History py db (finish_attempt py db k w delay ended message_id now failed_at)
  unfolding finish_attempt failure_of
  finish_attempt-History db k w delay (answered output) message_id now failed_at =
      completed-History db _ k w (normalize_answer py output) message_id now
        (failure-History db k w (crash delay) failed_at)
  finish_attempt-History db k w delay (AttemptEnd.run_cancelled m) message_id now failed_at =
      failure-History db k w _ failed_at
  finish_attempt-History db k w delay AttemptEnd.lease_lost message_id now failed_at = start
  finish_attempt-History db k w delay (AttemptEnd.tool_failed c m r) message_id now failed_at =
      failure-History db k w _ failed_at
  finish_attempt-History db k w delay (AttemptEnd.limit_exceeded m) message_id now failed_at =
      failure-History db k w _ failed_at
  finish_attempt-History db k w delay AttemptEnd.crashed message_id now failed_at =
      failure-History db k w _ failed_at

module _ (py : Python) (squeeze : String → String) (encoding : Option Encoding)
    (policy : ContextPolicy) (runner : RunExecutionInput → PreparedContext → Db → AttemptEnd × Db)
    (transactional : RunnerIsTransactional py runner) where
  attempt-History :
      (db : Db) (k w : ℕ) (input : RunExecutionInput) (lost : Bool) (clock : Clock)
      → History py db (attempt py squeeze encoding policy runner db k w input lost clock).1
  unfolding attempt
  attempt-History db k w input lost clock =
      elim (ContextResult-cases (
        prepare_session_context py squeeze encoding db input.session_id input.message_id
          input.prompt policy [] clock.prepared_at)) [
            | inr (e, missing) ↦ rw (missing, attempt) start
            | inl (c, stored, made) ↦
                let first = then_do start (
                  prepare squeeze encoding input.session_id input.message_id input.prompt policy []
                    clock.prepared_at c made) in
                elim (Result-cases (
                  record_context_snapshot py stored k w c.usage clock.recorded_at
                    clock.checked_at)) [
                      | inr (worker_lease_lost, e) ↦ rw (made, e, attempt) first
                      | inr (run_not_found, e) ↦ rw (made, e, attempt) first
                      | inr (bad_answer, e) ↦ rw (made, e, attempt) first
                      | inl (recorded, e) ↦
                          rw (made, e, attempt)
                            (History-trans
                              (then_do first
                                (context k w c.usage clock.recorded_at clock.checked_at e))
                              (transactional input c recorded))
                    ]
          ]

  -- Whatever the agent does, as long as it writes to the tables by their transactions only, a whole
  -- attempt is a history of the tables, from its input to its end: all that holds of every history
  -- holds of it.
  pub execute_run-History :
      (db : Db) (k w delay : ℕ) (lost : Bool) (message_id : ℕ) (clock : Clock)
      → History py db
          (execute_run py squeeze encoding policy runner db k w delay lost message_id clock)
  unfolding execute_run
  execute_run-History db k w delay lost message_id clock =
      elim (Option-cases (get_run_execution_input db k)) [
        | inl missing ↦ rw (missing, execute_run) (failure-History db k w _ clock.failed_at)
        | inr (input, there) ↦
            let ran = attempt py squeeze encoding policy runner db k w input lost clock in
            rw (there, execute_run)
              (History-trans (attempt-History db k w input lost clock) (
                finish_attempt-History ran.1 k w delay ran.0 message_id clock.completed_at
                  clock.failed_at))
      ]
