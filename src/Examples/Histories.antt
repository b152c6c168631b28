-- ===== src/Examples/Histories.antt =====
-- Histories of one Run.
use diy_agent.Prelude.{◌≡◌, ◌≤◌, refl, some, true, ◌++◌, length}
use diy_agent.Models.{Db, AgentRun}
use diy_agent.Store.Tables.{Result, ok, err, find_run}
use diy_agent.Store.Events.{append_event, read_events_after}
use diy_agent.Store.Claim.{renew_lease}
use diy_agent.Store.Finish.{fail_run}
use diy_agent.Store.Writes.{DbIsValid, CountsFrom}
use diy_agent.Store.Writes.Tracks.{IsStopping}
use diy_agent.Store.History.{History, start, then_do, renew, fail}
use diy_agent.Store.History.Safety.{
  History-IsValid, History-attempts, History-terminal, History-cancelled,
}
use diy_agent.Store.History.Replay.{read_resumes, read_numbers, numbers}
use diy_agent.Examples.Samples.{
  plain, working, cancelled, stopping, db_with, timeout, working-IsValid, stopping-IsValid,
  cancelled-IsValid,
}

-- The tables after a transaction.
abbrev after_of : {A : Type 0} → Db → Result (A × Db) → Db
after_of db (ok (_, after)) = after
after_of db (err e) = db

-- The Worker 11 renews its lease, and then its attempt fails.
abbrev renewed : AgentRun → Db
renewed run = (renew_lease (db_with run) 5 11 100 40).1

abbrev timed_out : AgentRun → Db
timed_out run = after_of (renewed run) (fail_run plain (renewed run) 5 11 timeout 60)

failing : History plain (db_with working) (timed_out working)
unfolding renew_lease fail_run append_event
failing = then_do (then_do start (renew 5 11 100 40 refl)) (fail 5 11 timeout 60 true refl)

failing_stopped : History plain (db_with stopping) (timed_out stopping)
unfolding renew_lease fail_run append_event
failing_stopped = then_do (then_do start (renew 5 11 100 40 refl)) (fail 5 11 timeout 60 true refl)

History-IsValid_example : DbIsValid (timed_out working)
History-IsValid_example = History-IsValid {py = plain} working-IsValid failing

History-attempts_example :
    (later : AgentRun) × (find_run 5 (timed_out working).runs ≡ some later)
    × (later.max_attempts ≡ 2)
    × (1 ≤ later.attempt_count)
    × (later.attempt_count ≤ 2)
History-attempts_example = History-attempts {py = plain} 5 working working-IsValid failing refl

History-terminal_example : find_run 5 (renewed cancelled).runs ≡ some cancelled
History-terminal_example =
    History-terminal {py = plain} 5 cancelled cancelled-IsValid
      (then_do start (renew 5 11 100 40 refl)) refl refl

History-cancelled_example :
    (later : AgentRun) × (find_run 5 (timed_out stopping).runs ≡ some later)
    × IsStopping later
    × (later.attempt_count ≡ 1)
History-cancelled_example =
    History-cancelled {py = plain} 5 stopping stopping-IsValid failing_stopped refl refl

read_numbers_example :
    CountsFrom 0 (numbers (read_events_after (db_with working) 5 0).0)
    × (length (read_events_after (db_with working) 5 0).0 ≡ 1)
read_numbers_example = read_numbers (db_with working) 5 working-IsValid 0

read_resumes_example :
    (read_events_after (db_with working) 5 0).0 ++ (read_events_after (timed_out working) 5 1).0
    ≡ (read_events_after (timed_out working) 5 0).0
read_resumes_example = read_resumes {py = plain} 5 working-IsValid failing
