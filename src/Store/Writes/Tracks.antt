-- ===== src/Store/Writes/Tracks.antt =====
-- What writes make of one row: it moves along the state machine.
use diy_agent.Prelude.{
  ℕ, ◌≤◌, ◌≡◌, ◌⊎◌, inl, inr, refl, sym, ◌∙◌, ap, subst, some, true, Bool-cases, [], ◌∷◌, ◌==◌,
  ==_iff, arith,
}
use diy_agent.Models.{Db, AgentRun, RunStatus, is_terminal}
use diy_agent.Store.Tables.{find_run}
use diy_agent.Store.Claim.{expired_run, claimed_run, renewed_run}
use diy_agent.Store.Finish.{
  cancelled_run, succeeded_run, retried_run, failed_run, cancelled_pending_run,
}
use diy_agent.Store.Machine.{
  RunStep, claim, renew, report, succeed, give_up, retry, fail, expire, request, cancel,
}
use diy_agent.Store.Machine.Steps.{RunStep-id, RunStep-live, RunStep-cancelled}
use diy_agent.Store.Writes.{Write, Writes, add, change, log, touch, here, next}
use diy_agent.Store.Writes.Rows.{find_run-append_some, find_run-put_run_ne, find_run-put_run_self}

-- Any number of transitions.
pub data RunSteps (run : AgentRun) : AgentRun → Type 0 where
  stay : RunSteps run run
  step : {mid row : AgentRun} → RunSteps run mid → RunStep mid row → RunSteps run row

abbrev pub Tracks : Db → ℕ → AgentRun → Type 0
Tracks after k run = (later : AgentRun) × (find_run k after.runs ≡ some later) × RunSteps run later

Write-Tracks :
    {db after : Db} (k : ℕ) (run mid : AgentRun)
    → Write db after
    → find_run k db.runs ≡ some mid
    → RunSteps run mid
    → Tracks after k run
Write-Tracks {db} k run mid (add new fresh ok pending er ee) h s =
    (mid, rw er (find_run-append_some k db.runs (new ∷ []) h), s)
Write-Tracks {db} k run mid (change old row found t er ee) h s = elim (Bool-cases (row.id == k)) [
  | inl same ↦
      let e : row.id ≡ k = (==_iff row.id k).0 same in
      let old_eq : some old ≡ some mid =
        sym found ∙ ap (λ j. find_run j db.runs) (sym (RunStep-id t) ∙ e) ∙ h in
      let old_mid : old ≡ mid = cc old_eq in
      (
        row,
        rw (er, ← e)
            (find_run-put_run_self row db.runs
              (ap (λ j. find_run j db.runs) (RunStep-id t) ∙ found)),
        step s (subst (λ o. RunStep o row) old_mid t),
      )
  | inr other ↦ (mid, rw er (find_run-put_run_ne k row db.runs (ground arith) ∙ h), s)
]
Write-Tracks k run mid (log event known number er ee) h s = (mid, rw er h, s)
Write-Tracks k run mid (touch er ee) h s = (mid, rw er h, s)

-- A row that is found before the writes is found after them, some transitions on.
pub Writes-Tracks :
    {db after : Db} (k : ℕ) (run : AgentRun)
    → Writes db after
    → find_run k db.runs ≡ some run
    → Tracks after k run
Writes-Tracks k run here h = (run, h, stay)
Writes-Tracks k run (next ws w) h =
    let (mid, found, s) = Writes-Tracks k run ws h in Write-Tracks k run mid w found s

RunStep-attempts :
    {run row : AgentRun}
    → RunStep run row
    → (row.max_attempts ≡ run.max_attempts) × (run.attempt_count ≤ row.attempt_count)
unfolding claimed_run renewed_run succeeded_run cancelled_run retried_run failed_run expired_run
    cancelled_pending_run
RunStep-attempts (claim w l n h e) = ground arith
RunStep-attempts (renew l n h e) = ground arith
RunStep-attempts (report o n h e) = ground arith
RunStep-attempts (succeed o m n h c e) = ground arith
RunStep-attempts (give_up p n h c e) = ground arith
RunStep-attempts (retry p f n h c m e) = ground arith
RunStep-attempts (fail p f n h c e) = ground arith
RunStep-attempts (expire p n h e) = ground arith
RunStep-attempts (request n h e) = ground arith
RunStep-attempts (cancel p n h e) = ground arith

pub RunSteps-attempts :
    {run row : AgentRun}
    → RunSteps run row
    → (row.max_attempts ≡ run.max_attempts) × (run.attempt_count ≤ row.attempt_count)
RunSteps-attempts stay = (refl, omega arith)
RunSteps-attempts (step s t) = ground (arith, RunSteps-attempts s, RunStep-attempts t)

pub RunSteps-terminal :
    {run row : AgentRun} → RunSteps run row → is_terminal run.status ≡ true → row ≡ run
RunSteps-terminal stay h = refl
RunSteps-terminal (step {mid = mid} s t) h = cc (RunSteps-terminal s h, RunStep-live t, h)

abbrev pub IsStopping : AgentRun → Type 0
IsStopping run =
    (run.cancel_requested ≡ true)
    × ((run.status ≡ RunStatus.running) ⊎ (run.status ≡ RunStatus.cancelled))

pub RunSteps-IsStopping :
    {run row : AgentRun}
    → RunSteps run row
    → IsStopping run
    → IsStopping row × (row.attempt_count ≡ run.attempt_count)
RunSteps-IsStopping stay h = (h, refl)
RunSteps-IsStopping (step s t) h =
    let (before, same) = RunSteps-IsStopping s h in
    let (requested, status, kept) = RunStep-cancelled t before.0 in
    ((requested, status), kept ∙ same)
