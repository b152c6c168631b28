-- ===== src/Examples/Claims.antt =====
-- Single transactions on one Run.
use diy_agent.Prelude.{
  none, ℕ, ◌≡◌, ◌⊎◌, refl, Option, some, true, false, not, ◌&&◌, leb, All, keep_if, arith,
}
use diy_agent.Models.{Db, AgentRun, is_running}
use diy_agent.RunResults.{answer_entries, answer_sources}
use diy_agent.Store.Tables.{Result, ok, err, worker_lease_lost, bad_answer, find_run}
use diy_agent.Store.Events.{append_event}
use diy_agent.Store.Enqueue.{created_before}
use diy_agent.Store.Claim.{
  is_claimable, claim_next_run, mark_terminal_expired_runs, mark_expired_runs, claim_next,
  next_claimable, claim_run, claimed_run, renew_lease, renewed_run,
}
use diy_agent.Store.Finish.{complete_run, fail_run, failure_row, request_cancellation}
use diy_agent.Store.Writes.Tracks.{IsStopping}
use diy_agent.Store.Refines.Renewal.{renew_lease-extends}
use diy_agent.Store.Leases.Owners.{Request, complete, serve}
use diy_agent.Store.Leases.Claims.{claim_next_run-takes, claim_next_run-fences}
use diy_agent.Store.Leases.Progress.{claim_next_run-progress}
use diy_agent.Store.Leases.Outcomes.{
  IsCompleted, complete_run-settles, fail_run-requeues, request_cancellation-settles,
}
use diy_agent.Examples.Samples.{
  plain, nobody_holds, waiting, working, db_with, answer, timeout, waiting-IsValid, working-IsValid,
}

abbrev claimed : Result (Option ℕ × Db)
claimed = claim_next_run plain (db_with waiting) 11 100 nobody_holds 29 30 31

abbrev after_claim : Db
after_claim = elim claimed [ ok r ↦ r.1 | err e ↦ db_with waiting ]

takes_waiting : claimed ≡ ok (some 5, after_claim)
unfolding claim_next_run mark_terminal_expired_runs mark_expired_runs claim_next next_claimable
    claim_run claimed_run append_event
takes_waiting = refl

claim_next_run-takes_example :
    (marked : Db) × (run : AgentRun) × (mark_terminal_expired_runs plain nobody_holds 29
        (db_with waiting)
      ≡ ok marked)
    × (find_run 5 marked.runs ≡ some run)
    × (is_claimable 30 run ≡ true)
    × (nobody_holds 5 ≡ false)
    × All
        (λ r. created_before r run ≡ false)
        (keep_if (λ r. not (nobody_holds r.id) && is_claimable 30 r) marked.runs)
    × (find_run 5 after_claim.runs ≡ some (claimed_run 11 100 30 run))
claim_next_run-takes_example =
    claim_next_run-takes plain (db_with waiting) 11 100 nobody_holds 29 30 31 waiting-IsValid
      takes_waiting

claim_next_run-fences_example :
    serve plain after_claim 5 12 (complete answer 9 40) ≡ err worker_lease_lost
claim_next_run-fences_example =
    claim_next_run-fences plain (db_with waiting) 11 100 nobody_holds 29 30 31 12
      (complete answer 9 40) waiting-IsValid takes_waiting (omega arith)

claim_next_run-progress_example :
    (taken : ℕ) × (after : Db) × (claim_next_run plain
        (db_with waiting)
        11
        100
        nobody_holds
        29
        30
        31
      ≡ ok (some taken, after))
claim_next_run-progress_example =
    claim_next_run-progress plain (db_with waiting) 11 100 nobody_holds 29 30 31 5 waiting
      waiting-IsValid refl refl refl (omega arith)

renew_lease-extends_example :
    ((renew_lease (db_with working) 5 11 100 60).0 ≡ true)
    × (find_run 5 (renew_lease (db_with working) 5 11 100 60).1.runs
        ≡ some (renewed_run 100 60 working))
renew_lease-extends_example =
    renew_lease-extends (db_with working) 5 11 100 60 working working-IsValid refl

complete_run-settles_example :
    ((false ≡ false)
      × (answer_entries (answer_sources plain answer) ≡ none)
      × (complete_run plain (db_with working) 5 11 answer 9 60 ≡ err bad_answer))
    ⊎ ((after : Db) × (row : AgentRun) × (complete_run plain (db_with working) 5 11 answer 9 60
          ≡ ok (true, after))
        × (find_run 5 after.runs ≡ some row)
        × IsCompleted plain answer 9 60 working (db_with working).messages row after.messages
        × ((other : ℕ) (request : Request)
            → serve plain after 5 other request ≡ err worker_lease_lost))
complete_run-settles_example =
    complete_run-settles plain (db_with working) 5 11 answer 9 60 working refl refl

fail_run-requeues_example :
    (after : Db) × (row : AgentRun) × (fail_run plain (db_with working) 5 11 timeout 60
      ≡ ok (true, after))
    × (find_run 5 after.runs ≡ some row)
    × (row ≡ failure_row plain timeout 60 working)
    × ((later : ℕ) → is_claimable later row ≡ leb 65 later)
    × ((other : ℕ) (request : Request) → serve plain after 5 other request ≡ err worker_lease_lost)
fail_run-requeues_example =
    fail_run-requeues plain (db_with working) 5 11 timeout 60 working refl refl

request_cancellation-settles_example :
    (after : Db) × (row : AgentRun) × (request_cancellation plain (db_with working) 5 7 60
      ≡ ok (some row, after))
    × (find_run 5 after.runs ≡ some row)
    × (after.messages ≡ (db_with working).messages)
    × (((false ≡ true) × (row ≡ working) × (after ≡ db_with working))
        ⊎ (IsStopping row × (is_running row.status ≡ true)))
request_cancellation-settles_example =
    request_cancellation-settles plain (db_with working) 5 7 60 working refl
      (working-IsValid.rows.0) refl
