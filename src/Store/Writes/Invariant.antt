-- ===== src/Store/Writes/Invariant.antt =====
-- Writes keep the tables valid.
use diy_agent.Prelude.{◌≡◌, subst, sym, some, ◌∷◌, [], All, All-append}
use diy_agent.Models.{Db}
use diy_agent.Store.Tables.{find_run}
use diy_agent.Store.Machine.{RunIsValid}
use diy_agent.Store.Machine.Steps.{RunStep-id, RunStep-IsValid}
use diy_agent.Store.Writes.{Write, add, change, log, touch, Writes, here, next, DbIsValid, Distinct}
use diy_agent.Store.Writes.Rows.{put_run-Distinct, append-Distinct, put_run-All, find_run-All}
use diy_agent.Store.Writes.Sequences.{log-CountsFrom}

-- Validity only looks at the Runs and the events.
IsValid_of_eq :
    (db after : Db)
    → All RunIsValid after.runs
    → Distinct after.runs
    → after.events ≡ db.events
    → DbIsValid db
    → DbIsValid after
IsValid_of_eq db after rows keys e v = record {
  rows = rows;
  keys = keys;
  log = λ k. rw e (v.log k);
}

pub Write-IsValid : {db after : Db} → Write db after → DbIsValid db → DbIsValid after
Write-IsValid {db} {after} (add run fresh ok pending er ee) v =
    IsValid_of_eq db after (rw er (All-append RunIsValid db.runs (run ∷ []) v.rows (ok, tt)))
      (rw er (append-Distinct run db.runs fresh v.keys)) ee v
Write-IsValid {db} {after} (change run row found s er ee) v =
    IsValid_of_eq db after
      (rw er (
        put_run-All RunIsValid row db.runs v.rows (
          RunStep-IsValid s (
            find_run-All RunIsValid row.id db.runs v.rows
              (subst (λ k. find_run k db.runs ≡ some run) (sym (RunStep-id s)) found)))))
      (rw er (put_run-Distinct row db.runs v.keys)) ee v
Write-IsValid {db} {after} (log event known number er ee) v = record {
  rows = rw er v.rows;
  keys = rw er v.keys;
  log = λ k. rw ee (log-CountsFrom db.events event number v.log k);
}
Write-IsValid {db} {after} (touch er ee) v =
    IsValid_of_eq db after (rw er v.rows) (rw er v.keys) ee v

pub Writes-IsValid : {db after : Db} → Writes db after → DbIsValid db → DbIsValid after
Writes-IsValid here v = v
Writes-IsValid (next ws w) v = Write-IsValid w (Writes-IsValid ws v)
