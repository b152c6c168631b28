-- ===== src/Worker.antt =====
-- app/worker.py: one attempt of a Run, from its input to what is stored of its end.
-- What the agent does between the context and its answer is a parameter, `runner`: it returns, or
-- raises, and leaves tables, since its callbacks, the heartbeat and other transactions write too.
-- The long-term memory service is left out (`memory_service=None`).
pub mod Ends
pub mod Histories
pub mod Lost
use diy_agent.Prelude.{
  ℕ, String, Option, none, some, List, [], ◌∷◌, Bool, true, false, Json, Items, Fields, has_key,
  add_field, str, arr, obj, nil, end, field, Python, as_text, text_eq, if◌then◌else◌,
}
use diy_agent.Models.{Db}
use diy_agent.Store.Tables.{Result, ok, err, run_not_found, worker_lease_lost, bad_answer}
use diy_agent.Store.Claim.{claim_next_run}
use diy_agent.Store.Progress.{RunExecutionInput, get_run_execution_input, record_context_snapshot}
use diy_agent.Store.Finish.{Failure, complete_run, fail_run}
use diy_agent.Context.Tokens.{Encoding}
use diy_agent.Context.Budget.{ContextPolicy}
use diy_agent.Context.Prepare.{PreparedContext, prepared, not_found, prepare_session_context}

-- `value.setdefault(key, default)`
abbrev pub set_default : String → Json → Fields → Fields
set_default key default fs = if has_key key fs then fs else add_field key default fs

abbrev pub with_defaults : Fields → Fields
with_defaults fs = set_default "reference" (arr nil) (set_default "answer" (str "") fs)

-- `normalize_answer`; a Pydantic model comes as the dictionary that `model_dump` makes of it.
unfoldable pub normalize_answer : Python → Json → Json
normalize_answer py (obj fs) = obj (with_defaults fs)
normalize_answer py value =
    obj (field "answer" (str (as_text py value)) (field "reference" (arr nil) end))

-- How the `try` block of `execute_run` ends: the agent's answer, or the exception by its `except`
-- clause.
pub data AttemptEnd : Type 0 where
  answered : Json → AttemptEnd
  run_cancelled : String → AttemptEnd
  lease_lost : AttemptEnd
  tool_failed : String → String → Bool → AttemptEnd
  limit_exceeded : String → AttemptEnd
  crashed : AttemptEnd

-- What a transaction stored; nothing where it was refused.
abbrev pub stored_or : Db → Result (Bool × Db) → Db
stored_or db (ok (_, after)) = after
stored_or db (err _) = db

-- `record_failure_if_owned`: a lost lease is logged and the failure discarded. Another error would
-- leave the Worker's loop; `fail_run` raises none.
unfoldable pub record_failure_if_owned : Python → Db → ℕ → ℕ → Failure → ℕ → Db
record_failure_if_owned py db run_id worker_id failure now =
    stored_or db (fail_run py db run_id worker_id failure now)

abbrev pub failure_with : String → String → Bool → ℕ → Failure
failure_with code message retryable delay = record {
  error_code = code;
  error_message = message;
  retryable = retryable;
  retry_delay_seconds = delay;
}

abbrev pub crash : ℕ → Failure
crash = failure_with "AGENT_EXECUTION_FAILED" "Agent 执行失败，请使用 run_id 查询服务日志。" true

-- The failure that an `except` clause records; none for a lost lease, and for an answer.
unfoldable pub failure_of : ℕ → AttemptEnd → Option Failure
failure_of delay (answered output) = none
failure_of delay (run_cancelled message) = some (failure_with "RUN_CANCELLED" message false delay)
failure_of delay lease_lost = none
failure_of delay (tool_failed code message retryable) =
    some (failure_with code message retryable delay)
failure_of delay (limit_exceeded message) =
    some (failure_with "AGENT_INVOCATION_LIMIT_EXCEEDED" message false delay)
failure_of delay crashed = some (crash delay)

-- What `complete_run` stored, nothing where the lease was lost, and the failure otherwise.
abbrev pub completed_or : Db → Db → Result (Bool × Db) → Db
completed_or db failed (ok (_, after)) = after
completed_or db failed (err worker_lease_lost) = db
completed_or db failed (err run_not_found) = failed
completed_or db failed (err bad_answer) = failed

-- The end of `execute_run`: `complete_run` for an answer, and the `except` clauses. `message_id` is
-- the identifier of a new message, `failed_at` the clock at the time of a failure.
unfoldable pub finish_attempt : Python → Db → ℕ → ℕ → ℕ → AttemptEnd → ℕ → ℕ → ℕ → Db
unfolding failure_of record_failure_if_owned
finish_attempt py db run_id worker_id delay (answered output) message_id now failed_at =
    completed_or db (record_failure_if_owned py db run_id worker_id (crash delay) failed_at)
      (complete_run py db run_id worker_id (normalize_answer py output) message_id now)
finish_attempt py db run_id worker_id delay raised message_id now failed_at =
    elim (failure_of delay raised) [
      | none ↦ db
      | some failure ↦ record_failure_if_owned py db run_id worker_id failure failed_at
    ]

-- What an answer counts for, once the heartbeat has found the lease lost.
abbrev pub unless_lost : Bool → AttemptEnd → AttemptEnd
unless_lost true (answered output) = lease_lost
unless_lost lost raised = raised

-- The readings of the clock in one attempt, in their order.
pub record Clock : Type 0 where
  pub prepared_at : ℕ
  pub recorded_at : ℕ
  pub checked_at : ℕ
  pub completed_at : ℕ
  pub failed_at : ℕ

module _ (py : Python) (squeeze : String → String) (encoding : Option Encoding)
    (policy : ContextPolicy)
    (runner : RunExecutionInput → PreparedContext → Db → AttemptEnd × Db) where
  -- The body of the `try` block up to the answer.
  unfoldable pub attempt : Db → ℕ → ℕ → RunExecutionInput → Bool → Clock → AttemptEnd × Db
  attempt db run_id worker_id input lost clock =
      elim (prepare_session_context py squeeze encoding db input.session_id input.message_id
        input.prompt policy [] clock.prepared_at) [
          | not_found e ↦ (crashed, db)
          | prepared context stored ↦
              elim (record_context_snapshot py stored run_id worker_id context.usage
                clock.recorded_at clock.checked_at) [
                  | err worker_lease_lost ↦ (lease_lost, stored)
                  | err run_not_found ↦ (crashed, stored)
                  | err bad_answer ↦ (crashed, stored)
                  | ok recorded ↦
                      let ran = runner input context recorded in (unless_lost lost ran.0, ran.1)
                ]
        ]

  -- `execute_run`; `lost` is what the heartbeat has found by the end of the agent's work.
  unfoldable pub execute_run : Db → ℕ → ℕ → ℕ → Bool → ℕ → Clock → Db
  unfolding attempt finish_attempt
  execute_run db run_id worker_id delay lost message_id clock =
      elim (get_run_execution_input db run_id) [
        | none ↦
            record_failure_if_owned py db run_id worker_id
              (failure_with "RUN_INPUT_NOT_FOUND" "找不到 Run 对应的用户消息。" false delay) clock.failed_at
        | some input ↦
            let ran = attempt db run_id worker_id input lost clock in
            finish_attempt py ran.1 run_id worker_id delay ran.0 message_id clock.completed_at
              clock.failed_at
      ]

  -- `run_once`: a claim, and the attempt where it took a Run. `lease_seconds`, `locked` and the
  -- three readings of the clock are those of the claim.
  unfoldable pub run_once :
      Db → ℕ → ℕ → (ℕ → Bool) → ℕ → ℕ → ℕ → ℕ → Bool → ℕ → Clock → Result (Option ℕ × Db)
  unfolding execute_run
  run_once db worker_id lease_seconds locked marked_at now claimed_at delay lost message_id clock =
      elim (claim_next_run py db worker_id lease_seconds locked marked_at now claimed_at) [
        | err e ↦ err e
        | ok claimed ↦ elim claimed.0 [
          | none ↦ ok (none, claimed.1)
          | some run_id ↦
              ok (some run_id, execute_run claimed.1 run_id worker_id delay lost message_id clock)
        ]
      ]
