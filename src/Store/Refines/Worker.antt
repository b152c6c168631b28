-- ===== src/Store/Refines/Worker.antt =====
-- The transactions of a Run's Worker and of its user, as writes.
use diy_agent.Prelude.{
  ℕ, ◌≡◌, ◌<◌, refl, sym, subst, ◌∙◌, Json, Python, Option, none, some, Bool, true, false, inl, inr,
  ◌⊎◌, Option-cases, Bool-cases, if_true, if_false, arith,
}
use diy_agent.Schemas.{RunResult, v1}
use diy_agent.RunResults.{complete_result}
use diy_agent.Models.{
  Db, AgentRun, EventType, EventData, Message, is_running, is_pending, is_terminal,
}
use diy_agent.Store.Tables.{Result, ok, err, find_run, save_run, owns, touch_session}
use diy_agent.Store.Events.{append_event}
use diy_agent.Store.Enqueue.{
  Submission, enqueue_message, owned_session, new_run, queued_message, queued_run, with_submission,
  touched,
}
use diy_agent.Store.Progress.{record_output}
use diy_agent.Store.Finish.{
  Failure, complete_run, fail_run, failure_row, request_cancellation, cancel_live_run, may_retry,
  success_with,
}
use diy_agent.Store.Machine.{
  RunStep, report, succeed, give_up, retry, fail, request, cancel, RunIsValid,
}
use diy_agent.Store.Writes.{Writes, add, touch, here, next, DbIsValid}
use diy_agent.Store.Writes.Rows.{find_run-All}
use diy_agent.Store.Refines.Commit.{
  append_event-Write, commit-Writes, write_owned-eq-ok, find_run_self, answer_with-eq-ok,
}

-- The owner of a lease works on a running Run.
owns-running : (run : AgentRun) (w now : ℕ) → owns run w now ≡ true → is_running run.status ≡ true
owns-running run w now h = ground arith

pub record_output-eq-ok :
    (db : Db) (k w : ℕ) (output : AgentRun → RunResult) (type : EventType) (payload : EventData)
    (now checked_at : ℕ) {after : Db}
    → record_output db k w output type payload now checked_at ≡ ok after
    → (run : AgentRun) × (find_run k db.runs ≡ some run)
      × (owns run w now ≡ true)
      × (append_event
            (save_run db (record run { output_json = some (v1 (output run)); updated_at = now }))
            k
            type
            payload
            (some w)
            checked_at
          ≡ ok after)
unfolding record_output
record_output-eq-ok db k w output type payload now checked_at {after} h =
    elim (Option-cases (find_run k db.runs)) [
      | inl missing ↦ absurd (ground arith)
      | inr (run, found) ↦ (run, found, ground arith, ground arith)
    ]

-- A snapshot of the output is a transition and an event.
pub record_output-Writes :
    (db : Db) (k w : ℕ) (output : AgentRun → RunResult) (type : EventType) (payload : EventData)
    (now checked_at : ℕ) {after : Db}
    → record_output db k w output type payload now checked_at ≡ ok after
    → Writes db after
unfolding record_output
record_output-Writes db k w output type payload now checked_at {after} h =
    let (run, found, own, wrote) =
      record_output-eq-ok db k w output type payload now checked_at h in
    commit-Writes db _ run _ k type payload (some w) checked_at found
      (report (some (v1 (output run))) now (owns-running run w now own) refl) refl refl wrote

touched-eq-ok :
    (session_id now : ℕ) (r : Result Db) {after : Db}
    → touched session_id now r ≡ ok after
    → (logged : Db) × (r ≡ ok logged)
      × (after ≡ record logged { sessions = touch_session session_id now logged.sessions })
touched-eq-ok session_id now (ok logged) h = (logged, refl, ground arith)
touched-eq-ok session_id now (err e) h = absurd (ground arith)

module _ (py : Python) where
  -- A guarded completion is a success or a cancellation, and its event.
  pub complete_run-Writes :
      (db : Db) (k w : ℕ) (output : Json) (message_id now : ℕ) {done : Bool} {after : Db}
      → complete_run py db k w output message_id now ≡ ok (done, after)
      → Writes db after
  unfolding complete_run success_with
  complete_run-Writes db k w output message_id now {after = after} h =
      elim (write_owned-eq-ok db k w now _ h) [
        | inr (missing, e, _) ↦ rw e here
        | inl (run, found, own, wrote, _) ↦ elim (Bool-cases run.cancel_requested) [
          | inl stop ↦
              commit-Writes db _ run _ k _ _ none now found
                (give_up py now (owns-running run w now own) stop refl) refl refl
                (sym (if_true _ _ stop) ∙ wrote)
          | inr go ↦
              let into : (r : Option RunResult)
                  → complete_result py run.output_json output now ≡ r
                  → success_with db k run message_id now r ≡ ok after =
                λ r made.
                  subst (λ r. success_with db k run message_id now r ≡ ok after) made
                    (sym (if_false _ _ go) ∙ wrote) in
              elim (Option-cases (complete_result py run.output_json output now)) [
                | inl bad ↦ absurd (ground (arith, into none bad))
                | inr (final, made) ↦
                    commit-Writes db _ run _ k _ _ none now found
                      (succeed final message_id now (owns-running run w now own) go refl) refl refl
                      (into (some final) made)
              ]
        ]
      ]

  -- What a failed attempt makes of the row is a transition.
  failure_row-RunStep :
      (failure : Failure) (now : ℕ) (run : AgentRun)
      → is_running run.status ≡ true
      → RunStep run (failure_row py failure now run)
  unfolding failure_row
  failure_row-RunStep failure now run r = elim (Bool-cases run.cancel_requested) [
    | inl stop ↦ subst (RunStep run) (sym (if_true _ _ stop)) (give_up py now r stop refl)
    | inr go ↦
        subst (RunStep run) (sym (if_false _ _ go)) (elim (Bool-cases (may_retry failure run)) [
          | inl again ↦
              subst (RunStep run) (sym (if_true _ _ again)) (retry py failure now r go again refl)
          | inr last ↦ subst (RunStep run) (sym (if_false _ _ last)) (fail py failure now r go refl)
        ])
  ]

  pub fail_run-Writes :
      (db : Db) (k w : ℕ) (failure : Failure) (now : ℕ) {done : Bool} {after : Db}
      → fail_run py db k w failure now ≡ ok (done, after)
      → Writes db after
  unfolding fail_run
  fail_run-Writes db k w failure now h = elim (write_owned-eq-ok db k w now _ h) [
    | inr (missing, e, _) ↦ rw e here
    | inl (run, found, own, wrote, _) ↦
        commit-Writes db _ run _ k _ _ none now found
          (failure_row-RunStep failure now run (owns-running run w now own)) refl refl wrote
  ]

  -- A Run that is neither pending nor ended is running, in valid tables.
  running_of_live :
      (run : AgentRun)
      → RunIsValid run
      → is_terminal run.status ≡ false
      → is_pending run.status ≡ false
      → is_running run.status ≡ true
  running_of_live run v t p = ground arith

  cancel_live_run-Writes :
      (db : Db) (run : AgentRun) (now : ℕ) {answer : Option AgentRun} {after : Db}
      → find_run run.id db.runs ≡ some run
      → RunIsValid run
      → is_terminal run.status ≡ false
      → cancel_live_run py db run now ≡ ok (answer, after)
      → Writes db after
  unfolding cancel_live_run
  cancel_live_run-Writes db run now found v live h = elim (Bool-cases (is_pending run.status)) [
    | inl p ↦
        commit-Writes db _ run _ run.id _ _ none now found (cancel py now p refl) refl refl
          (answer_with-eq-ok _ _ (sym (if_true _ _ p) ∙ h))
    | inr p ↦
        commit-Writes db _ run _ run.id _ _ none now found
          (request now (running_of_live run v live p) refl) refl refl
          (answer_with-eq-ok _ _ (sym (if_false _ _ p) ∙ h))
  ]

  -- A cancellation changes nothing, or works on a Run that has not ended.
  pub request_cancellation-eq-ok :
      (db : Db) (k user_id now : ℕ) {answer : Option AgentRun} {after : Db}
      → request_cancellation py db k user_id now ≡ ok (answer, after)
      → (after ≡ db)
        ⊎ ((run : AgentRun) × (find_run k db.runs ≡ some run)
            × (is_terminal run.status ≡ false)
            × (cancel_live_run py db run now ≡ ok (answer, after)))
  unfolding request_cancellation
  request_cancellation-eq-ok db k user_id now {answer} {after} h =
      elim (Option-cases (find_run k db.runs)) [
        | inl missing ↦ inl (ground arith)
        | inr (run, found) ↦ elim (Option-cases (owned_session db run.session_id user_id)) [
          | inl foreign ↦ inl (ground arith)
          | inr (conversation, own) ↦ elim (Bool-cases (is_terminal run.status)) [
            | inl over ↦ inl (ground arith)
            | inr live ↦ inr (run, found, live, ground arith)
          ]
        ]
      ]

  pub request_cancellation-Writes :
      (db : Db) (k user_id now : ℕ) {answer : Option AgentRun} {after : Db}
      → DbIsValid db
      → request_cancellation py db k user_id now ≡ ok (answer, after)
      → Writes db after
  request_cancellation-Writes db k user_id now v h =
      elim (request_cancellation-eq-ok db k user_id now h) [
        | inl same ↦ rw same here
        | inr (run, found, live, cancelled) ↦
            cancel_live_run-Writes db run now (find_run_self db k run found)
              (find_run-All RunIsValid k db.runs v.rows found) live cancelled
      ]

  -- A submission that is accepted adds a pending Run, logs it and touches its session.
  pub enqueue_message-Writes :
      (db : Db) (session_id user_id : ℕ) (s : Submission) (now : ℕ)
      {answer : Option (Message × AgentRun)} {after : Db}
      → find_run s.run_id db.runs ≡ none
      → 0 < s.max_attempts
      → enqueue_message py db session_id user_id s now ≡ ok (answer, after)
      → Writes db after
  unfolding enqueue_message queued_run new_run with_submission
  enqueue_message-Writes db session_id user_id s now {answer} {after} fresh positive h =
      elim (Option-cases (owned_session db session_id user_id)) [
        | inl foreign ↦ subst (Writes db) (ground arith) here
        | inr (conversation, own) ↦
            let (logged, wrote, e) = touched-eq-ok session_id now _ (
              answer_with-eq-ok
                (some (queued_message session_id s now, queued_run py db session_id s now)) _
                (rw (own, enqueue_message) at h)) in
            next
              (next
                (next here
                  (add (queued_run py db session_id s now) fresh (ground arith) refl refl refl))
                (append_event-Write _ s.run_id _ _ none now wrote))
              (touch (rw e) (rw e))
      ]
