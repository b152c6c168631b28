-- ===== src/Worker/Lost.antt =====
-- app/worker.py: an attempt whose heartbeat has lost the lease.
use diy_agent.Prelude.{
  ℕ, ◌≡◌, ◌⊎◌, refl, ◌∙◌, String, Option, Bool, true, false, Python, inl, inr, List, [],
  Option-cases, arith,
}
use diy_agent.Models.{Db}
use diy_agent.Schemas.{ContextUsage}
use diy_agent.Store.Tables.{ok, worker_lease_lost, run_not_found, bad_answer}
use diy_agent.Store.Events.{append_event}
use diy_agent.Store.Progress.{
  RunExecutionInput, get_run_execution_input, record_output, record_context_snapshot,
}
use diy_agent.Store.Finish.{Failure, fail_run}
use diy_agent.Context.Tokens.{Encoding}
use diy_agent.Context.Budget.{ContextPolicy}
use diy_agent.Context.Prepare.{PreparedContext, prepared, prepare_session_context}
use diy_agent.Worker.{
  AttemptEnd, answered, record_failure_if_owned, failure_of, finish_attempt, unless_lost, Clock,
  attempt, execute_run,
}
use diy_agent.Worker.Histories.{Result-cases, ContextResult-cases}

-- Whether an attempt ended with an answer.
abbrev pub is_answered : AttemptEnd → Bool
is_answered (answered output) = true
is_answered _ = false

module _ (py : Python) where
  record_failure-messages :
      (db : Db) (k w : ℕ) (failure : Failure) (now : ℕ)
      → (record_failure_if_owned py db k w failure now).messages ≡ db.messages
  unfolding record_failure_if_owned fail_run append_event
  record_failure-messages db k w failure now = ground arith

  stopped-messages :
      (db : Db) (k w delay : ℕ) (raised : AttemptEnd) (message_id now failed_at : ℕ)
      → is_answered raised ≡ false
      → (finish_attempt py db k w delay raised message_id now failed_at).messages ≡ db.messages
  unfolding finish_attempt failure_of
  stopped-messages db k w delay (answered output) message_id now failed_at h =
      absurd (ground (arith, h))
  stopped-messages db k w delay (AttemptEnd.run_cancelled m) message_id now failed_at h =
      record_failure-messages db k w _ failed_at
  stopped-messages db k w delay AttemptEnd.lease_lost message_id now failed_at h = refl
  stopped-messages db k w delay (AttemptEnd.tool_failed c m r) message_id now failed_at h =
      record_failure-messages db k w _ failed_at
  stopped-messages db k w delay (AttemptEnd.limit_exceeded m) message_id now failed_at h =
      record_failure-messages db k w _ failed_at
  stopped-messages db k w delay AttemptEnd.crashed message_id now failed_at h =
      record_failure-messages db k w _ failed_at

  recorded-messages :
      (db : Db) (k w : ℕ) (usage : ContextUsage) (now checked_at : ℕ) {after : Db}
      → record_context_snapshot py db k w usage now checked_at ≡ ok after
      → after.messages ≡ db.messages
  unfolding record_context_snapshot record_output append_event
  recorded-messages db k w usage now checked_at h = ground (arith, h)

  prepared-messages :
      (squeeze : String → String) (encoding : Option Encoding) (db : Db) (session_id id : ℕ)
      (prompt : String) (policy : ContextPolicy) (memories : List String) (now : ℕ)
      (context : PreparedContext) (stored : Db)
      → prepare_session_context py squeeze encoding db session_id id prompt policy memories now
        ≡ prepared context stored
      → stored.messages ≡ db.messages
  unfolding prepare_session_context
  prepared-messages squeeze encoding db session_id id prompt policy memories now context stored h =
      ground (arith, h)

unless_lost-answered : (ended : AttemptEnd) → is_answered (unless_lost true ended) ≡ false
unless_lost-answered (answered output) = refl
unless_lost-answered (AttemptEnd.run_cancelled m) = refl
unless_lost-answered AttemptEnd.lease_lost = refl
unless_lost-answered (AttemptEnd.tool_failed c m r) = refl
unless_lost-answered (AttemptEnd.limit_exceeded m) = refl
unless_lost-answered AttemptEnd.crashed = refl

module _ (py : Python) (squeeze : String → String) (encoding : Option Encoding)
    (policy : ContextPolicy)
    (runner : RunExecutionInput → PreparedContext → Db → AttemptEnd × Db) where
  -- Tables with the messages of before, or with those that the agent's work left.
  abbrev pub NoAnswer : Db → Db → Type 0
  NoAnswer db after =
      (after.messages ≡ db.messages)
      ⊎ ((input : RunExecutionInput) × (context : PreparedContext) × (before : Db)
          × (before.messages ≡ db.messages)
          × (after.messages ≡ (runner input context before).1.messages))

  same-NoAnswer :
      (db mid after : Db) → after.messages ≡ mid.messages → NoAnswer db mid → NoAnswer db after
  same-NoAnswer db mid after e (inl same) = inl (e ∙ same)
  same-NoAnswer db mid after e (inr (input, context, before, same, left)) =
      inr (input, context, before, same, e ∙ left)

  attempt-NoAnswer :
      (db : Db) (k w : ℕ) (input : RunExecutionInput) (clock : Clock)
      → (is_answered (attempt py squeeze encoding policy runner db k w input true clock).0 ≡ false)
        × NoAnswer db (attempt py squeeze encoding policy runner db k w input true clock).1
  unfolding attempt
  attempt-NoAnswer db k w input clock =
      elim (ContextResult-cases (
        prepare_session_context py squeeze encoding db input.session_id input.message_id
          input.prompt policy [] clock.prepared_at)) [
            | inr (e, missing) ↦ rw (missing, attempt) (refl, inl refl)
            | inl (c, stored, made) ↦
                let same : stored.messages ≡ db.messages =
                  prepared-messages py squeeze encoding db input.session_id input.message_id
                    input.prompt policy [] clock.prepared_at c stored made in
                elim (Result-cases (
                  record_context_snapshot py stored k w c.usage clock.recorded_at
                    clock.checked_at)) [
                      | inr (worker_lease_lost, e) ↦ rw (made, e, attempt) (refl, inl same)
                      | inr (run_not_found, e) ↦ rw (made, e, attempt) (refl, inl same)
                      | inr (bad_answer, e) ↦ rw (made, e, attempt) (refl, inl same)
                      | inl (recorded, e) ↦
                          let kept =
                            recorded-messages py stored k w c.usage clock.recorded_at
                              clock.checked_at e in
                          rw (made, e, attempt)
                            (
                              unless_lost-answered (runner input c recorded).0,
                              inr (input, c, recorded, kept ∙ same, refl),
                            )
                    ]
          ]

  -- Once the heartbeat has found the lease lost, an attempt stores no answer: whatever the agent
  -- returns, the messages are those of before, or those that the agent's work left in the tables.
  pub execute_run-lost :
      (db : Db) (k w delay message_id : ℕ) (clock : Clock)
      → NoAnswer db
          (execute_run py squeeze encoding policy runner db k w delay true message_id clock)
  unfolding execute_run
  execute_run-lost db k w delay message_id clock =
      elim (Option-cases (get_run_execution_input db k)) [
        | inl missing ↦
            rw (missing, execute_run) (inl (record_failure-messages py db k w _ clock.failed_at))
        | inr (input, there) ↦
            let ran = attempt py squeeze encoding policy runner db k w input true clock in
            let (stopped, left) = attempt-NoAnswer db k w input clock in
            let ended =
              finish_attempt py ran.1 k w delay ran.0 message_id clock.completed_at
                clock.failed_at in
            rw (there, execute_run)
              (same-NoAnswer db ran.1 ended
                (stopped-messages py ran.1 k w delay ran.0 message_id clock.completed_at
                  clock.failed_at stopped)
                left)
      ]
