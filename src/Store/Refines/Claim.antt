-- ===== src/Store/Refines/Claim.antt =====
-- The transactions by which a Worker comes by a Run and keeps it, as writes.
use diy_agent.Prelude.{
  ℕ, ◌≡◌, ◌≢◌, refl, sym, subst, ◌∙◌, Python, Option, none, some, Bool, true, not, ◌&&◌, inl, inr,
  ◌⊎◌, List, [], ◌∷◌, Option-cases, keep_if, take, All, All-zip, All-take, All-keep_if, arith,
}
use diy_agent.Models.{Db, AgentRun}
use diy_agent.Store.Tables.{Result, ok, err, find_run, put_run, ◌>>=◌}
use diy_agent.Store.Claim.{
  is_exhausted, expired_run, mark_expired_run, mark_expired_runs, mark_terminal_expired_runs,
  is_claimable, earlier_run, oldest_run, next_claimable, claim_run, claim_next, claim_next_run,
}
use diy_agent.Store.Machine.{claim, expire}
use diy_agent.Store.Writes.{Writes, here, Writes-trans, Distinct, DbIsValid}
use diy_agent.Store.Writes.Rows.{
  find_run-put_run_ne, find_run-none-All, take-Distinct, keep_if-Distinct, keep_if-found,
}
use diy_agent.Store.Writes.Invariant.{Writes-IsValid}
use diy_agent.Store.Refines.Commit.{commit-Writes, append_event-eq-ok, answer_with-eq-ok}

-- What the query of `claim_next_run` selects is a row of the table that passes its test.
earlier_run-cases :
    (run : AgentRun) (other : Option AgentRun)
    → (earlier_run run other ≡ run) ⊎ (other ≡ some (earlier_run run other))
earlier_run-cases run none = inl refl
earlier_run-cases run (some o) = ground arith

-- Either the new head is the oldest, or the oldest of the rest is.
oldest_run-cases :
    (test : AgentRun → Bool) (r : AgentRun) (runs : List AgentRun) {run : AgentRun}
    → oldest_run (keep_if test (r ∷ runs)) ≡ some run
    → ((test r ≡ true) × (r ≡ run)) ⊎ (oldest_run (keep_if test runs) ≡ some run)
oldest_run-cases test r runs {run} h =
    ground (arith, earlier_run-cases r (oldest_run (keep_if test runs)))

module _ (test : AgentRun → Bool) where
  -- What the query selects passes its test.
  pub oldest_run-test :
      (runs : List AgentRun) {run : AgentRun}
      → oldest_run (keep_if test runs) ≡ some run
      → test run ≡ true
  oldest_run-test [] h = cc
  oldest_run-test (r ∷ runs) {run} h = elim (oldest_run-cases test r runs h) [
    | inl (pass, e) ↦ rw (← e) pass
    | inr rest ↦ oldest_run-test runs rest
  ]

  -- What the query selects is the row with its key.
  pub oldest_run-found :
      (runs : List AgentRun) {run : AgentRun}
      → Distinct runs
      → oldest_run (keep_if test runs) ≡ some run
      → find_run run.id runs ≡ some run
  oldest_run-found [] d h = cc
  oldest_run-found (r ∷ runs) {run} d h = elim (oldest_run-cases test r runs h) [
    | inl (pass, e) ↦ ground arith
    | inr rest ↦ ground (arith, oldest_run-found runs d.1 rest)
  ]

claim_run-Writes :
    (db : Db) (w l now checked_at : ℕ) (run : AgentRun) {answer : Option ℕ} {after : Db}
    → find_run run.id db.runs ≡ some run
    → is_claimable now run ≡ true
    → claim_run db w l now checked_at run ≡ ok (answer, after)
    → Writes db after
unfolding claim_run
claim_run-Writes db w l now checked_at run found test h =
    commit-Writes db _ run _ run.id _ _ (some w) checked_at found (claim w l now test refl) refl
      refl (answer_with-eq-ok (some run.id) _ h)

pub and_right : (a b : Bool) → (a && b) ≡ true → b ≡ true
and_right a b h = ground arith

pub claim_next-Writes :
    (db : Db) (w l : ℕ) (locked : ℕ → Bool) (now checked_at : ℕ) {answer : Option ℕ} {after : Db}
    → Distinct db.runs
    → claim_next db w l locked now checked_at ≡ ok (answer, after)
    → Writes db after
unfolding claim_next next_claimable
claim_next-Writes db w l locked now checked_at {answer} {after} d h =
    elim (Option-cases (next_claimable locked now db.runs)) [
      | inl idle ↦ subst (Writes db) (ground arith) here
      | inr (run, picked) ↦
          claim_run-Writes db w l now checked_at run (oldest_run-found _ db.runs d picked)
            (and_right _ _
              (oldest_run-test (λ r. not (locked r.id) && is_claimable now r) db.runs picked))
            (rw (picked, claim_next) at h)
    ]

pub bind-eq-ok {κ} :
    {B : Type κ} (m : Result Db) (f : Db → Result B) {b : B}
    → (m >>= f) ≡ ok b
    → (mid : Db) × (m ≡ ok mid) × (f mid ≡ ok b)
bind-eq-ok (ok db) f h = (db, refl, h)
bind-eq-ok (err e) f h = absurd (ground arith)

module _ (py : Python) where
  mark_expired_run-eq-ok :
      (now : ℕ) (run : AgentRun) (db : Db) {after : Db}
      → mark_expired_run py now run db ≡ ok after
      → after.runs ≡ put_run (expired_run py now run) db.runs
  unfolding mark_expired_run
  mark_expired_run-eq-ok now run db h =
      let (row, found, allowed, e) = append_event-eq-ok _ run.id _ _ none now h in rw e

  mark_expired_run-Writes :
      (now : ℕ) (run : AgentRun) (db : Db) {after : Db}
      → is_exhausted now run ≡ true
      → find_run run.id db.runs ≡ some run
      → mark_expired_run py now run db ≡ ok after
      → Writes db after
  unfolding mark_expired_run
  mark_expired_run-Writes now run db test found h =
      commit-Writes db _ run (expired_run py now run) run.id _ _ none now found
        (expire py now test refl) refl refl h

  pub find_run-expired :
      (now : ℕ) (run r : AgentRun) (db : Db)
      → r.id ≢ run.id
      → find_run r.id db.runs ≡ some r
      → find_run r.id (put_run (expired_run py now run) db.runs) ≡ some r
  unfolding expired_run
  find_run-expired now run r db other found =
      find_run-put_run_ne r.id (expired_run py now run) db.runs (λ e. other (sym e)) ∙ found

  mark_expired_runs-Writes :
      (now : ℕ) (rows : List AgentRun) (db : Db) {after : Db}
      → All (λ run. is_exhausted now run ≡ true) rows
      → All (λ run. find_run run.id db.runs ≡ some run) rows
      → Distinct rows
      → mark_expired_runs py now rows db ≡ ok after
      → Writes db after
  unfolding mark_expired_runs
  mark_expired_runs-Writes now [] db test found d h = subst (Writes db) (ground arith) here
  mark_expired_runs-Writes now (run ∷ rows) db test found d h =
      let (mid, marked, rest) = bind-eq-ok _ _ h in
      let runs_eq = mark_expired_run-eq-ok now run db marked in
      let still : All (λ r. find_run r.id mid.runs ≡ some r) rows =
        All-zip {P = λ r. r.id ≢ run.id} rows
          (λ r other ok_r. rw runs_eq (find_run-expired now run r db other ok_r))
          (find_run-none-All run.id rows d.0) found.1 in
      Writes-trans (mark_expired_run-Writes now run db test.0 found.0 marked)
        (mark_expired_runs-Writes now rows mid test.1 still d.1 rest)

  pub mark_terminal_expired_runs-Writes :
      (locked : ℕ → Bool) (now : ℕ) (db : Db) {after : Db}
      → Distinct db.runs
      → mark_terminal_expired_runs py locked now db ≡ ok after
      → Writes db after
  unfolding mark_terminal_expired_runs
  mark_terminal_expired_runs-Writes locked now db d h =
      let test = λ (run : AgentRun). not (locked run.id) && is_exhausted now run in
      let rows = keep_if test db.runs in
      mark_expired_runs-Writes now (take 20 rows) db
        (All-zip (take 20 rows) (λ r t u. and_right (not (locked r.id)) _ t)
          (All-take (λ r. test r ≡ true) 20 rows (All-keep_if test db.runs))
          (All-take (λ r. test r ≡ true) 20 rows (All-keep_if test db.runs)))
        (All-take (λ r. find_run r.id db.runs ≡ some r) 20 rows (keep_if-found test db.runs d))
        (take-Distinct 20 rows (keep_if-Distinct test db.runs d)) h

  -- A claim marks what is exhausted, and takes at most one Run.
  pub claim_next_run-Writes :
      (db : Db) (w l : ℕ) (locked : ℕ → Bool) (marked_at now checked_at : ℕ) {answer : Option ℕ}
      {after : Db}
      → DbIsValid db
      → claim_next_run py db w l locked marked_at now checked_at ≡ ok (answer, after)
      → Writes db after
  unfolding claim_next_run
  claim_next_run-Writes db w l locked marked_at now checked_at v h =
      let (mid, marked, claimed) = bind-eq-ok _ _ h in
      let first_part = mark_terminal_expired_runs-Writes locked marked_at db v.keys marked in
      Writes-trans first_part
        (claim_next-Writes mid w l locked now checked_at (Writes-IsValid first_part v).keys claimed)
