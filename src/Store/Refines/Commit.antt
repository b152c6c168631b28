-- ===== src/Store/Refines/Commit.antt =====
-- The write and the event that most transactions end with.
use diy_agent.Prelude.{
  ℕ, suc, ◌≡◌, refl, sym, subst, Option, none, some, Bool, true, false, inl, inr, ◌⊎◌, [], ◌∷◌,
  ◌++◌, Option-cases, arith,
}
use diy_agent.Models.{Db, AgentRun, RunEvent, EventType, EventData}
use diy_agent.Store.Tables.{Result, ok, err, find_run, put_run, owns, owned_run, answer_with}
use diy_agent.Store.Events.{append_event, latest_sequence, may_append}
use diy_agent.Store.Finish.{write_owned}
use diy_agent.Store.Machine.{RunStep}
use diy_agent.Store.Writes.{Write, Writes, change, log, here, next}
use diy_agent.Store.Writes.Rows.{find_run-id}

pub find_run_self :
    (db : Db) (k : ℕ) (run : AgentRun)
    → find_run k db.runs ≡ some run
    → find_run run.id db.runs ≡ some run
find_run_self db k run h =
    subst (λ j. find_run j db.runs ≡ some run) (sym (find_run-id k db.runs h)) h

-- The tables that a transaction with an answer leaves.
pub answer_with-eq-ok {ℓ} :
    {A : Type ℓ} (answer : A) (r : Result Db) {other : A} {after : Db}
    → answer_with answer r ≡ ok (other, after)
    → r ≡ ok after
answer_with-eq-ok answer (ok db) h = ground arith
answer_with-eq-ok answer (err e) h = ground arith

pub answer_with-answer {ℓ} :
    {A : Type ℓ} (answer : A) (r : Result Db) {other : A} {after : Db}
    → answer_with answer r ≡ ok (other, after)
    → answer ≡ other
answer_with-answer answer (ok db) h = ground arith
answer_with-answer answer (err e) h = absurd (ground arith)

-- The event that `append_event` adds.
abbrev pub appended : Db → ℕ → EventType → EventData → ℕ → RunEvent
appended db k type payload now = record {
  run_id = k;
  sequence = suc (latest_sequence k db.events);
  event_type = type;
  data_json = payload;
  created_at = now;
}

module _ (db : Db) (k : ℕ) (type : EventType) (payload : EventData) (owner : Option ℕ)
    (now : ℕ) where
  -- What is known when an append went through.
  pub append_event-eq-ok :
      {after : Db}
      → append_event db k type payload owner now ≡ ok after
      → (run : AgentRun) × (find_run k db.runs ≡ some run)
        × (may_append run owner now ≡ true)
        × (after ≡ record db { events = db.events ++ appended db k type payload now ∷ [] })
  unfolding append_event
  append_event-eq-ok {after} h = elim (Option-cases (find_run k db.runs)) [
    | inl missing ↦ absurd (ground arith)
    | inr (run, found) ↦ (run, found, ground arith, ground arith)
  ]

  -- An append is a write of one event.
  pub append_event-Write :
      {after : Db} → append_event db k type payload owner now ≡ ok after → Write db after
  append_event-Write {after} h =
      let (run, found, allowed, e) = append_event-eq-ok h in
      log (appended db k type payload now) (rw found) refl (rw e) (rw e)

-- A transition of a row, in tables that differ in the other columns only, and its event.
pub commit-Writes :
    (db mid : Db) (run row : AgentRun) (k : ℕ) (type : EventType) (payload : EventData)
    (owner : Option ℕ) (now : ℕ) {after : Db}
    → find_run k db.runs ≡ some run
    → RunStep run row
    → mid.runs ≡ put_run row db.runs
    → mid.events ≡ db.events
    → append_event mid k type payload owner now ≡ ok after
    → Writes db after
commit-Writes db mid run row k type payload owner now found s er ee h =
    next (next here (change run row (find_run_self db k run found) s er ee))
      (append_event-Write mid k type payload owner now h)

-- What a guarded write knows of the Run.
pub owned_run-eq-ok :
    (db : Db) (k w now : ℕ) {run : AgentRun}
    → owned_run db k w now ≡ ok run
    → (find_run k db.runs ≡ some run) × (owns run w now ≡ true)
owned_run-eq-ok db k w now {run} h = ground arith

pub write_owned-eq-ok :
    (db : Db) (k w now : ℕ) (write : AgentRun → Result Db) {done : Bool} {after : Db}
    → write_owned db k w now write ≡ ok (done, after)
    → ((run : AgentRun) × (find_run k db.runs ≡ some run)
        × (owns run w now ≡ true)
        × (write run ≡ ok after)
        × (done ≡ true))
      ⊎ ((find_run k db.runs ≡ none) × (after ≡ db) × (done ≡ false))
write_owned-eq-ok db k w now write {done} {after} h = elim (Option-cases (find_run k db.runs)) [
  | inl missing ↦ inr (missing, ground arith, ground arith)
  | inr (run, found) ↦ inl (run, found, ground arith, ground arith, ground arith)
]
