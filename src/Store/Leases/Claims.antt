-- ===== src/Store/Leases/Claims.antt =====
-- What a claim takes, and what it leaves to others.
use diy_agent.Prelude.{
  ℕ, ◌≡◌, ◌≢◌, refl, Python, some, Bool, true, false, not, ◌&&◌, List, [], ◌∷◌, inl, inr,
  Option-cases, keep_if, All, All-zip, arith,
}
use diy_agent.Models.{Db, AgentRun}
use diy_agent.Store.Tables.{ok, err, worker_lease_lost, find_run, owns}
use diy_agent.Store.Enqueue.{created_before}
use diy_agent.Store.Claim.{
  claimed_run, claim_next_run, claim_next, claim_run, next_claimable, oldest_run, is_claimable,
  mark_terminal_expired_runs, earlier_run,
}
use diy_agent.Store.Writes.{DbIsValid, Distinct}
use diy_agent.Store.Writes.Invariant.{Writes-IsValid}
use diy_agent.Store.Writes.Rows.{find_run-put_run_self}
use diy_agent.Store.Refines.Commit.{append_event-eq-ok, answer_with-eq-ok, answer_with-answer}
use diy_agent.Store.Refines.Claim.{
  bind-eq-ok, oldest_run-found, oldest_run-test, and_right, mark_terminal_expired_runs-Writes,
}
use diy_agent.Store.Leases.Owners.{Request, asked_at, serve, serve_needs_lease}

unlocked : (a b : Bool) → (not a && b) ≡ true → a ≡ false
unlocked a b h = ground arith

created_before_trans :
    (a b c : AgentRun)
    → created_before a b ≡ false
    → created_before b c ≡ false
    → created_before a c ≡ false
created_before_trans a b c p q = ground arith

created_before_irrefl : (a : AgentRun) → created_before a a ≡ false
created_before_irrefl a = ground arith

earlier_run_first :
    (r run o : AgentRun)
    → earlier_run r (some o) ≡ run
    → (created_before r run ≡ false) × (created_before o run ≡ false)
earlier_run_first r run o h = ground arith

-- Nothing in the selection was created before what the query takes.
oldest_run-first :
    (runs : List AgentRun) {run : AgentRun}
    → oldest_run runs ≡ some run
    → All (λ r. created_before r run ≡ false) runs
oldest_run-first [] h = cc
oldest_run-first (r ∷ []) {run} h =
    let same : r ≡ run = cc h in (rw (← same) (created_before_irrefl r), tt)
oldest_run-first (r ∷ s ∷ runs) {run} h =
    let o = earlier_run s (oldest_run runs) in
    let (first_r, first_o) = earlier_run_first r run o (cc h) in
    (
      first_r,
      All-zip {P = λ x. created_before x o ≡ false} (s ∷ runs)
          (λ x p q. created_before_trans x o run p first_o)
          (oldest_run-first (s ∷ runs) {run = o} refl) (oldest_run-first (s ∷ runs) {run = o} refl),
    )

-- The row of the Run after its claim.
claim_run-row :
    (db : Db) (w l now checked_at : ℕ) (run : AgentRun) {k : ℕ} {after : Db}
    → find_run run.id db.runs ≡ some run
    → claim_run db w l now checked_at run ≡ ok (some k, after)
    → (run.id ≡ k) × (find_run run.id after.runs ≡ some (claimed_run w l now run))
unfolding claim_run claimed_run
claim_run-row db w l now checked_at run {k} {after} found h =
    let wrote = answer_with-eq-ok (some run.id) _ h in
    let same : run.id ≡ k = cc (answer_with-answer (some run.id) _ h) in
    let (row, there, allowed, e) = append_event-eq-ok _ run.id _ _ (some w) checked_at wrote in
    (same, rw e (find_run-put_run_self (claimed_run w l now run) db.runs found))

-- What a claim that took a Run did to the tables.
claim_next-takes :
    (db : Db) (w l : ℕ) (locked : ℕ → Bool) (now checked_at : ℕ) {k : ℕ} {after : Db}
    → Distinct db.runs
    → claim_next db w l locked now checked_at ≡ ok (some k, after)
    → (run : AgentRun) × (find_run k db.runs ≡ some run)
      × (is_claimable now run ≡ true)
      × (locked k ≡ false)
      × All
          (λ r. created_before r run ≡ false)
          (keep_if (λ r. not (locked r.id) && is_claimable now r) db.runs)
      × (find_run k after.runs ≡ some (claimed_run w l now run))
unfolding claim_next next_claimable
claim_next-takes db w l locked now checked_at {k} {after} d h =
    elim (Option-cases (next_claimable locked now db.runs)) [
      | inl idle ↦ absurd (ground arith)
      | inr (run, picked) ↦
          let test = λ (r : AgentRun). not (locked r.id) && is_claimable now r in
          let found = oldest_run-found test db.runs d picked in
          let pass = oldest_run-test test db.runs picked in
          let (same, row) =
            claim_run-row db w l now checked_at run found (rw (picked, claim_next) at h) in
          (
            run,
            rw (← same) found,
            and_right (not (locked run.id)) _ pass,
            rw (← same) (unlocked (locked run.id) _ pass),
            oldest_run-first (keep_if test db.runs) picked,
            rw (← same) row,
          )
    ]

claimed_by_other :
    (w l now other asked : ℕ) (run : AgentRun)
    → other ≢ w
    → owns (claimed_run w l now run) other asked ≡ false
unfolding claimed_run
claimed_by_other w l now other asked run ne = ground arith

module _ (py : Python) where
  -- A claim that answers with a Run `k` took it from the tables `marked`, in which the exhausted
  -- Runs had been ended: there it was claimable and not locked, no other such Run was created
  -- before it, and its row is now the claimed one, for this Worker and the full lease.
  pub claim_next_run-takes :
      (db : Db) (w l : ℕ) (locked : ℕ → Bool) (marked_at now checked_at : ℕ) {k : ℕ} {after : Db}
      → DbIsValid db
      → claim_next_run py db w l locked marked_at now checked_at ≡ ok (some k, after)
      → (marked : Db) × (run : AgentRun) × (mark_terminal_expired_runs py locked marked_at db
          ≡ ok marked)
        × (find_run k marked.runs ≡ some run)
        × (is_claimable now run ≡ true)
        × (locked k ≡ false)
        × All
            (λ r. created_before r run ≡ false)
            (keep_if (λ r. not (locked r.id) && is_claimable now r) marked.runs)
        × (find_run k after.runs ≡ some (claimed_run w l now run))
  unfolding claim_next_run
  claim_next_run-takes db w l locked marked_at now checked_at v h =
      let (marked, m, c) = bind-eq-ok _ _ h in
      let valid =
        Writes-IsValid (mark_terminal_expired_runs-Writes py locked marked_at db v.keys m) v in
      let (run, found, pass, free, first, row) =
        claim_next-takes marked w l locked now checked_at valid.keys c in
      (marked, run, m, found, pass, free, first, row)

  -- A Worker that took a Run shuts every other Worker out: whatever another Worker asks for that
  -- Run in the tables after the claim is refused, at whatever time.
  pub claim_next_run-fences :
      (db : Db) (w l : ℕ) (locked : ℕ → Bool) (marked_at now checked_at : ℕ) {k : ℕ} {after : Db}
      (other : ℕ) (request : Request)
      → DbIsValid db
      → claim_next_run py db w l locked marked_at now checked_at ≡ ok (some k, after)
      → other ≢ w
      → serve py after k other request ≡ err worker_lease_lost
  claim_next_run-fences db w l locked marked_at now checked_at {k} {after} other request v h ne =
      let (marked, run, m, found, pass, free, first, row) =
        claim_next_run-takes db w l locked marked_at now checked_at v h in
      serve_needs_lease py after k other (claimed_run w l now run) request row
        (claimed_by_other w l now other (asked_at request) run ne)
