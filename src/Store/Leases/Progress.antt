-- ===== src/Store/Leases/Progress.antt =====
-- A claim always returns, and takes a Run where there is one to take.
use mathlib.Core.Bool.{false≢true}
use diy_agent.Prelude.{
  ℕ, suc, ◌+◌, ◌<◌, ◌≡◌, ◌≢◌, refl, sym, ap, ◌∙◌, Python, Option, none, some, Bool, true, false,
  not, ◌&&◌, List, [], ◌∷◌, ◌++◌, inl, inr, Bool-cases, keep_if, take, All, All-zip, All-take,
  All-keep_if, arith,
}
use diy_agent.Models.{Db, AgentRun, EventType, EventData, RunStatus}
use diy_agent.Store.Tables.{ok, find_run, put_run, save_run}
use diy_agent.Store.Events.{append_event}
use diy_agent.Store.Claim.{
  is_exhausted, expired_run, mark_expired_run, mark_expired_runs, mark_terminal_expired_runs,
  claimed_run, is_claimable, earlier_run, claim_event, oldest_run, next_claimable, claim_run,
  claim_next, claim_next_run,
}
use diy_agent.Store.Writes.{DbIsValid, Distinct}
use diy_agent.Store.Writes.Rows.{
  find_run-id, find_run-put_run_self, find_run-none-All, keep_if-found, keep_if-Distinct,
  take-Distinct,
}
use diy_agent.Store.Refines.Commit.{appended, find_run_self}
use diy_agent.Store.Refines.Claim.{
  oldest_run-found, find_run-expired, and_right, mark_terminal_expired_runs-Writes,
}
use diy_agent.Store.Writes.Invariant.{Writes-IsValid}

-- An append for a Run that is there, by nobody in particular, goes through.
append_event-ok :
    (db : Db) (k : ℕ) (type : EventType) (payload : EventData) (now : ℕ) (run : AgentRun)
    → find_run k db.runs ≡ some run
    → (after : Db) × (append_event db k type payload none now ≡ ok after) × (after.runs ≡ db.runs)
unfolding append_event
append_event-ok db k type payload now run found =
    (record db { events = db.events ++ appended db k type payload now ∷ [] }, ground arith, refl)

clash :
    (now : ℕ) (r run : AgentRun)
    → is_exhausted now run ≡ false
    → is_exhausted now r ≡ true
    → ◌≡◌ {A = Option AgentRun} (some r) (some run)
    → ⊥
clash now r run p q e =
    let same : r ≡ run = cc e in false≢true (sym p ∙ ap (is_exhausted now) (sym same) ∙ q)

module _ (py : Python) where
  mark_expired_run-ok :
      (now : ℕ) (run : AgentRun) (db : Db)
      → find_run run.id db.runs ≡ some run
      → (after : Db) × (mark_expired_run py now run db ≡ ok after)
        × (after.runs ≡ put_run (expired_run py now run) db.runs)
  unfolding mark_expired_run expired_run
  mark_expired_run-ok now run db found =
      append_event-ok _ run.id _ _ now (expired_run py now run)
        (find_run-put_run_self (expired_run py now run) db.runs found)

  -- Marking goes through, and leaves a Run alone that is not exhausted.
  mark_expired_runs-ok :
      (now : ℕ) (rows : List AgentRun) (db : Db) (k : ℕ) (run : AgentRun)
      → find_run k db.runs ≡ some run
      → is_exhausted now run ≡ false
      → All (λ r. is_exhausted now r ≡ true) rows
      → All (λ r. find_run r.id db.runs ≡ some r) rows
      → Distinct rows
      → (after : Db) × (mark_expired_runs py now rows db ≡ ok after)
        × (find_run k after.runs ≡ some run)
  unfolding mark_expired_runs
  mark_expired_runs-ok now [] db k run found live tests rows d = (db, refl, found)
  mark_expired_runs-ok now (r ∷ rows) db k run found live tests there d =
      let (mid, wrote, moved) = mark_expired_run-ok now r db there.0 in
      let others : All (λ o. find_run o.id mid.runs ≡ some o) rows =
        All-zip {P = λ o. o.id ≢ r.id} rows
          (λ o other ok_o. rw moved (find_run-expired py now r o db other ok_o))
          (find_run-none-All r.id rows d.0) there.1 in
      let apart : run.id ≢ r.id = λ e. absurd (
        clash now r run live tests.0
          (sym there.0 ∙ ap (λ j. find_run j db.runs) (sym e) ∙ find_run_self db k run found)) in
      let still : find_run k mid.runs ≡ some run =
        rw (moved, ← find_run-id k db.runs found)
          (find_run-expired py now r run db apart (find_run_self db k run found)) in
      let (after, rest, kept) =
        mark_expired_runs-ok now rows mid k run still live tests.1 others d.1 in
      (after, rw wrote rest, kept)

-- A query that some row passes selects a row.
oldest_run-some :
    (test : AgentRun → Bool) (k : ℕ) (runs : List AgentRun) (run : AgentRun)
    → find_run k runs ≡ some run
    → test run ≡ true
    → (taken : AgentRun) × (oldest_run (keep_if test runs) ≡ some taken)
oldest_run-some test k [] run found pass = absurd (ground arith)
oldest_run-some test k (r ∷ runs) run found pass = elim (Bool-cases (test r)) [
  | inl hit ↦ (earlier_run r (oldest_run (keep_if test runs)), ground arith)
  | inr miss ↦
      let (taken, e) = oldest_run-some test k runs run (ground arith) pass in (taken, ground arith)
]

-- The event of a claim is written while the new lease runs.
claim_run-ok :
    (db : Db) (w l now checked_at : ℕ) (run : AgentRun)
    → find_run run.id db.runs ≡ some run
    → checked_at < now + l
    → (after : Db) × (claim_run db w l now checked_at run ≡ ok (some run.id, after))
unfolding claim_run append_event claimed_run
claim_run-ok db w l now checked_at run found live =
    let mid = save_run db (claimed_run w l now run) in
    (
      record mid {
        events =
            mid.events
            ++ appended mid run.id (claim_event run)
                (EventData.claimed RunStatus.running w (suc run.attempt_count) (now + l)) checked_at
              ∷ [];
      },
      ground (arith, find_run-put_run_self (claimed_run w l now run) db.runs found),
    )

claimable_not_exhausted :
    (now marked_at : ℕ) (run : AgentRun)
    → is_claimable now run ≡ true
    → is_exhausted marked_at run ≡ false
claimable_not_exhausted now marked_at run h = ground arith

module _ (py : Python) where
  -- In valid tables with a claimable, unlocked Run, a claim whose event is written before its new
  -- lease ends does not raise and takes a Run.
  pub claim_next_run-progress :
      (db : Db) (w l : ℕ) (locked : ℕ → Bool) (marked_at now checked_at k : ℕ) (run : AgentRun)
      → DbIsValid db
      → find_run k db.runs ≡ some run
      → is_claimable now run ≡ true
      → locked run.id ≡ false
      → checked_at < now + l
      → (taken : ℕ) × (after : Db) × (claim_next_run py db w l locked marked_at now checked_at
          ≡ ok (some taken, after))
  unfolding claim_next_run claim_next next_claimable mark_terminal_expired_runs
  claim_next_run-progress db w l locked marked_at now checked_at k run v found pass free live =
      let test = λ (r : AgentRun). not (locked r.id) && is_exhausted marked_at r in
      let rows = keep_if test db.runs in
      let (marked, wrote, kept) =
        mark_expired_runs-ok py marked_at (take 20 rows) db k run found
          (claimable_not_exhausted now marked_at run pass)
          (All-zip (take 20 rows) (λ r t u. and_right (not (locked r.id)) _ t)
            (All-take (λ r. test r ≡ true) 20 rows (All-keep_if test db.runs))
            (All-take (λ r. test r ≡ true) 20 rows (All-keep_if test db.runs)))
          (All-take (λ r. find_run r.id db.runs ≡ some r) 20 rows
            (keep_if-found test db.runs v.keys))
          (take-Distinct 20 rows (keep_if-Distinct test db.runs v.keys)) in
      let wanted = λ (r : AgentRun). not (locked r.id) && is_claimable now r in
      let (taken, picked) = oldest_run-some wanted k marked.runs run kept (rw (free, pass)) in
      let valid =
        Writes-IsValid (mark_terminal_expired_runs-Writes py locked marked_at db v.keys wrote) v in
      let (after, done) =
        claim_run-ok marked w l now checked_at taken
          (oldest_run-found wanted marked.runs valid.keys picked) live in
      (taken.id, after, rw (wrote, picked, claim_next) done)
