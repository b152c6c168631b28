-- ===== src/Store/Leases/Outcomes.antt =====
-- How the attempts of a Run end: what is stored, and who may still write.
use diy_agent.Prelude.{
  ℕ, ◌+◌, ◌≡◌, ◌⊎◌, refl, ap, ◌∙◌, Python, none, some, true, false, not, ◌&&◌, leb, is_some, Json,
  List, [], ◌∷◌, ◌++◌, inl, inr, Bool-cases, Option-cases, if_true, if_false, arith,
}
use diy_agent.Models.{
  Db, AgentRun, Message, MessageRole, EventType, EventData, RunStatus, is_terminal, is_pending,
  is_running,
}
use diy_agent.Schemas.{RunResult}
use diy_agent.RunResults.{answer_entries, answer_sources, completed_with, complete_result}
use diy_agent.Store.Tables.{
  Result, ok, err, worker_lease_lost, bad_answer, find_run, put_run, save_run, owns,
}
use diy_agent.Store.Events.{append_event}
use diy_agent.Store.Enqueue.{new_message, owned_session}
use diy_agent.Store.Claim.{is_claimable}
use diy_agent.Store.Finish.{
  write_owned, complete_run, cancelled_run, succeeded_run, store_success, success_with, Failure,
  may_retry, retried_run, failed_run, failure_row, failure_event, fail_run, request_cancellation,
  find_user_run, cancel_live_run, cancelled_pending_run,
}
use diy_agent.Store.Writes.Rows.{find_run-put_run_self, find_run-id}
use diy_agent.Store.Writes.Tracks.{IsStopping}
use diy_agent.Store.Machine.{RunIsValid}
use diy_agent.Store.Refines.Commit.{appended, find_run_self}
use diy_agent.Store.Leases.Owners.{Request, asked_at, serve, serve_needs_lease}

-- The row of a completed attempt and the messages of its tables, by whether its user cancelled it.
abbrev pub IsCompleted :
    Python → Json → ℕ → ℕ → AgentRun → List Message → AgentRun → List Message → Type 0
IsCompleted py output message_id now run before row messages =
    ((run.cancel_requested ≡ true) × (row ≡ cancelled_run py now run) × (messages ≡ before))
    ⊎ ((final : RunResult) × (run.cancel_requested ≡ false)
        × (complete_result py run.output_json output now ≡ some final)
        × (row ≡ succeeded_run final message_id now run)
        × (messages
            ≡ before
              ++ new_message message_id run.session_id MessageRole.assistant final.assistant_answer
                  now
                ∷ []))

-- A guarded write that passes its guard.
owned_write :
    (db : Db) (k w now : ℕ) (write : AgentRun → Result Db) (run : AgentRun) {after : Db}
    → find_run k db.runs ≡ some run
    → owns run w now ≡ true
    → write run ≡ ok after
    → write_owned db k w now write ≡ ok (true, after)
owned_write db k w now write run found mine wrote = ground arith

-- The end of a guarded write: a row that is no Worker's, and an event.
ended :
    (py : Python) (db mid : Db) (k : ℕ) (type : EventType) (payload : EventData) (now : ℕ)
    (run row : AgentRun)
    → find_run k db.runs ≡ some run
    → row.id ≡ run.id
    → mid.runs ≡ put_run row db.runs
    → ((w asked : ℕ) → owns row w asked ≡ false)
    → (after : Db) × (append_event mid k type payload none now ≡ ok after)
      × (find_run k after.runs ≡ some row)
      × (after.messages ≡ mid.messages)
      × ((other : ℕ) (request : Request) → serve py after k other request ≡ err worker_lease_lost)
unfolding append_event
ended py db mid k type payload now run row found same moved free =
    let there : find_run k mid.runs ≡ some row =
      rw (moved, ← find_run-id k db.runs found, ← same)
        (find_run-put_run_self row db.runs {run = run} (rw same (find_run_self db k run found))) in
    let after : Db = record mid { events = mid.events ++ appended mid k type payload now ∷ [] } in
    (
      after,
      ground arith,
      there,
      refl,
      λ other request.
          serve_needs_lease py after k other row request there (free other (asked_at request)),
    )

module _ (py : Python) where
  -- `complete_run` by the Worker that holds the lease returns, unless the Run is not cancelled and
  -- the sources of the answer are a number or a Boolean, for which it raises. Where it returns, the
  -- Run is cancelled, and no message is written, if its user asked for that; otherwise it has
  -- succeeded with the completed result, whose answer is the one new message. After that no Worker
  -- can write to the Run.
  pub complete_run-settles :
      (db : Db) (k w : ℕ) (output : Json) (message_id now : ℕ) (run : AgentRun)
      → find_run k db.runs ≡ some run
      → owns run w now ≡ true
      → ((run.cancel_requested ≡ false)
          × (answer_entries (answer_sources py output) ≡ none)
          × (complete_run py db k w output message_id now ≡ err bad_answer))
        ⊎ ((after : Db) × (row : AgentRun) × (complete_run py db k w output message_id now
              ≡ ok (true, after))
            × (find_run k after.runs ≡ some row)
            × IsCompleted py output message_id now run db.messages row after.messages
            × ((other : ℕ) (request : Request)
                → serve py after k other request ≡ err worker_lease_lost))
  unfolding complete_run success_with store_success cancelled_run succeeded_run complete_result
  complete_run-settles db k w output message_id now run found mine =
      elim (Bool-cases run.cancel_requested) [
        | inl stop ↦
            let row = cancelled_run py now run in
            let (after, e, there, sent, lost) =
              ended py db (save_run db row) k EventType.run_cancelled
                (EventData.status_only RunStatus.cancelled) now run row found refl refl
                (λ w asked. ground arith) in
            inr (
              after,
              row,
              owned_write db k w now _ run found mine (if_true _ _ stop ∙ e),
              there,
              inl (stop, refl, sent),
              lost,
            )
        | inr go ↦ elim (Option-cases (answer_entries (answer_sources py output))) [
          | inl missing ↦ inl (go, missing, ground arith)
          | inr (listed, entries) ↦
              let final = completed_with py run.output_json output listed now in
              let made : complete_result py run.output_json output now ≡ some final =
                ground arith in
              let row = succeeded_run final message_id now run in
              let (after, e, there, sent, lost) =
                ended py db (store_success db run final message_id now) k EventType.run_succeeded
                  (EventData.status_only RunStatus.succeeded) now run row found refl refl
                  (λ w asked. ground arith) in
              inr (
                after,
                row,
                owned_write db k w now _ run found mine
                    (if_false _ _ go ∙ ap (success_with db k run message_id now) made ∙ e),
                there,
                inr (final, go, made, refl, sent),
                lost,
              )
        ]
      ]

  -- `fail_run` by the Worker that holds the lease always returns. The row that it stores has no
  -- Worker any more, so that no Worker can write to the Run before a new claim; and the Run can be
  -- claimed again exactly from the end of the delay on, if its user did not cancel it, the failure
  -- is one that a retry may cure, and an attempt is left; otherwise never.
  pub fail_run-requeues :
      (db : Db) (k w : ℕ) (failure : Failure) (now : ℕ) (run : AgentRun)
      → find_run k db.runs ≡ some run
      → owns run w now ≡ true
      → (after : Db) × (row : AgentRun) × (fail_run py db k w failure now ≡ ok (true, after))
        × (find_run k after.runs ≡ some row)
        × (row ≡ failure_row py failure now run)
        × ((later : ℕ)
            → is_claimable later row ≡ (
                not run.cancel_requested
                && may_retry failure run
                && leb (now + failure.retry_delay_seconds) later))
        × ((other : ℕ) (request : Request) → serve py after k other request ≡ err worker_lease_lost)
  unfolding fail_run failure_row cancelled_run retried_run failed_run
  fail_run-requeues db k w failure now run found mine =
      let new = failure_row py failure now run in
      let (after, e, row, sent, lost) =
        ended py db (save_run db new) k (failure_event failure run)
          (EventData.attempt_failed new.status new.error_code new.error_message new.attempt_count
            new.next_retry_at)
          now run new found (ground arith) refl (λ w asked. ground arith) in
      (
        after,
        new,
        owned_write db k w now _ run found mine e,
        row,
        refl,
        λ later. ground arith,
        lost,
      )

  -- `request_cancellation` by the user whose session a valid Run belongs to always returns the
  -- row that is then stored, and writes no message. A Run that has ended is left alone, with all
  -- tables; any other has the request noted, and is cancelled at once unless it is running.
  pub request_cancellation-settles :
      (db : Db) (k user_id now : ℕ) (run : AgentRun)
      → find_run k db.runs ≡ some run
      → RunIsValid run
      → is_some (owned_session db run.session_id user_id) ≡ true
      → (after : Db) × (row : AgentRun) × (request_cancellation py db k user_id now
          ≡ ok (some row, after))
        × (find_run k after.runs ≡ some row)
        × (after.messages ≡ db.messages)
        × (((is_terminal run.status ≡ true) × (row ≡ run) × (after ≡ db))
            ⊎ (IsStopping row × (is_running row.status ≡ is_running run.status)))
  unfolding request_cancellation find_user_run cancel_live_run cancelled_pending_run append_event
  request_cancellation-settles db k user_id now run found valid own =
      elim (Bool-cases (is_terminal run.status)) [
        | inl over ↦ (db, run, ground arith, found, refl, inl (over, refl, refl))
        | inr live ↦
            let there = find_run_self db k run found in
            elim (Bool-cases (is_pending run.status)) [
              | inl waits ↦
                  let row = cancelled_pending_run py now run in
                  let mid = save_run db row in
                  (
                    record mid {
                      events =
                          mid.events
                          ++ appended mid run.id EventType.run_cancelled
                              (EventData.status_only RunStatus.cancelled) now
                            ∷ [];
                    },
                    row,
                    ground (arith, find_run-put_run_self row db.runs {run = run}),
                    rw (← find_run-id k db.runs found)
                        (find_run-put_run_self row db.runs {run = run} there),
                    refl,
                    inr ((refl, inr refl), ground arith),
                  )
              | inr works ↦
                  let row : AgentRun = record run { cancel_requested = true; updated_at = now } in
                  let mid = save_run db row in
                  (
                    record mid {
                      events =
                          mid.events
                          ++ appended mid run.id EventType.cancellation_requested
                              (EventData.status_only run.status) now
                            ∷ [];
                    },
                    row,
                    ground (arith, find_run-put_run_self row db.runs {run = run}),
                    rw (← find_run-id k db.runs found)
                        (find_run-put_run_self row db.runs {run = run} there),
                    refl,
                    inr ((refl, inl (ground arith)), refl),
                  )
            ]
      ]
