-- ===== src/Store/Writes.antt =====
-- The writes that a transaction of app/store.py is made of: a new row, a transition of a row, an
-- event, or a change of the other tables.
pub mod Rows
pub mod Sequences
pub mod Invariant
pub mod Log
pub mod Tracks
use diy_agent.Prelude.{
  ℕ, suc, ◌+◌, ◌≡◌, refl, Option, none, some, List, [], ◌∷◌, ◌++◌, Bool, true, false, ◌&&◌, ◌==◌,
  keep_if, is_some, map, length, All, arith, if◌then◌else◌,
}
use diy_agent.Models.{AgentRun, RunEvent, RunStatus, Db, is_pending}
use diy_agent.Store.Tables.{find_run, put_run}
use diy_agent.Store.Events.{latest_sequence}
use diy_agent.Store.Machine.{RunStep, RunIsValid}

-- One write. The tables of sessions and messages are free.
pub data Write (db after : Db) : Type 0 where
  add :
      (run : AgentRun)
      → find_run run.id db.runs ≡ none
      → RunIsValid run
      → is_pending run.status ≡ true
      → after.runs ≡ db.runs ++ run ∷ []
      → after.events ≡ db.events
      → Write db after
  change :
      (run row : AgentRun)
      → find_run run.id db.runs ≡ some run
      → RunStep run row
      → after.runs ≡ put_run row db.runs
      → after.events ≡ db.events
      → Write db after
  log :
      (event : RunEvent)
      → is_some (find_run event.run_id db.runs) ≡ true
      → event.sequence ≡ suc (latest_sequence event.run_id db.events)
      → after.runs ≡ db.runs
      → after.events ≡ db.events ++ event ∷ []
      → Write db after
  touch : after.runs ≡ db.runs → after.events ≡ db.events → Write db after

-- A sequence of writes.
pub data Writes (db : Db) : Db → Type 0 where
  here : Writes db db
  next : {mid after : Db} → Writes db mid → Write mid after → Writes db after

pub Writes-trans : {db mid after : Db} → Writes db mid → Writes mid after → Writes db after
Writes-trans ws here = ws
Writes-trans ws (next more w) = next (Writes-trans ws more) w

-- No two rows have the same identifier.
abbrev pub Distinct : List AgentRun → Type 0
Distinct [] = Unit
Distinct (run ∷ runs) = (find_run run.id runs ≡ none) × Distinct runs

-- The sequence numbers of a Run's events, in the order of the log.
abbrev pub sequences : ℕ → List RunEvent → List ℕ
sequences run_id events =
    map (λ event. event.sequence) (keep_if (λ event. event.run_id == run_id) events)

-- The numbers count on from `n` by one, without a gap.
abbrev pub CountsFrom : ℕ → List ℕ → Type 0
CountsFrom n [] = Unit
CountsFrom n (s ∷ ss) = (s ≡ suc n) × CountsFrom (suc n) ss

-- The invariant of the tables.
pub record DbIsValid (db : Db) : Type 0 where
  pub rows : All RunIsValid db.runs
  pub keys : Distinct db.runs
  pub log : (run_id : ℕ) → CountsFrom 0 (sequences run_id db.events)
