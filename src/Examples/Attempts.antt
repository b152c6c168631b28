-- ===== src/Examples/Attempts.antt =====
-- The ends of one attempt.
use diy_agent.Prelude.{none, ℕ, ◌+◌, not, ◌&&◌, ltb, leb, true, ◌≡◌, ◌⊎◌, refl, some, false}
use diy_agent.Models.{AgentRun, Db, is_running}
use diy_agent.Store.Progress.{RunExecutionInput}
use diy_agent.Context.Budget.{ContextPolicy}
use diy_agent.Context.Prepare.{PreparedContext}
use diy_agent.Store.Claim.{is_claimable}
use diy_agent.Worker.Lost.{NoAnswer, execute_run-lost}
use diy_agent.Store.Tables.{find_run}
use diy_agent.Worker.{AttemptEnd, crashed, lease_lost, answered, Clock, finish_attempt, execute_run}
use diy_agent.Worker.Ends.{
  may_pass, finish_attempt-releases, finish_attempt-retries, finish_attempt-discards,
}
use diy_agent.Examples.Samples.{plain, working, db_with, answer}

finish_attempt-releases_example :
    (crashed ≡ lease_lost)
    ⊎ ((row : AgentRun) × (find_run 5
            (finish_attempt plain (db_with working) 5 11 5 crashed 9 60 61).runs
          ≡ some row)
        × (is_running row.status ≡ false))
finish_attempt-releases_example =
    finish_attempt-releases plain (db_with working) 5 11 working refl 5 9 60 61 crashed refl refl

finish_attempt-discards_example :
    finish_attempt plain (db_with working) 5 11 5 (answered answer) 9 130 131 ≡ db_with working
finish_attempt-discards_example =
    finish_attempt-discards plain (db_with working) 5 11 working refl 5 9 130 131 (answered answer)
      refl refl

abbrev pub budgets : ContextPolicy
budgets = record {
  max_input_tokens = 100;
  system_reserved_tokens = 10;
  tool_reserved_tokens = 10;
  output_reserved_tokens = 10;
  recent_message_limit = 2;
  summary_max_tokens = 64;
  long_term_memory_max_tokens = 8;
  minimum_recent_tokens = 16;
}

-- An agent that answers at once.
abbrev quick : RunExecutionInput → PreparedContext → Db → AttemptEnd × Db
quick input context db = (answered answer, db)

abbrev pub morning : Clock
morning = record {
  prepared_at = 40;
  recorded_at = 41;
  checked_at = 42;
  completed_at = 60;
  failed_at = 61;
}

execute_run-lost_example :
    NoAnswer plain
      (λ s. s)
      none
      budgets
      quick
      (db_with working)
      (execute_run plain (λ s. s) none budgets quick (db_with working) 5 11 5 true 9 morning)
execute_run-lost_example =
    execute_run-lost plain (λ s. s) none budgets quick (db_with working) 5 11 5 9 morning

finish_attempt-retries_example :
    (row : AgentRun) × (find_run 5
        (finish_attempt plain (db_with working) 5 11 5 crashed 9 60 61).runs
      ≡ some row)
    × ((later : ℕ)
        → is_claimable later row ≡ (
            not working.cancel_requested
            && (may_pass crashed && ltb working.attempt_count working.max_attempts)
            && leb (61 + 5) later))
finish_attempt-retries_example =
    finish_attempt-retries plain (db_with working) 5 11 working refl 5 9 60 61 crashed refl refl
