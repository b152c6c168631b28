-- ===== src/Store/Machine/Steps.antt =====
-- What one transition of a row keeps.
use diy_agent.Prelude.{◌≡◌, ◌⊎◌, true, false, arith}
use diy_agent.Models.{AgentRun, RunStatus, is_terminal}
use diy_agent.Store.Claim.{expired_run, claimed_run, renewed_run}
use diy_agent.Store.Finish.{
  cancelled_run, succeeded_run, retried_run, failed_run, cancelled_pending_run,
}
use diy_agent.Store.Machine.{
  RunStep, claim, renew, report, succeed, give_up, retry, fail, expire, request, cancel, RunIsValid,
}

module _ {run row : AgentRun} where
  -- A transition keeps the identity of the Run.
  pub RunStep-id : RunStep run row → row.id ≡ run.id
  unfolding claimed_run renewed_run succeeded_run cancelled_run retried_run failed_run expired_run
      cancelled_pending_run
  RunStep-id (claim w l n h e) = ground arith
  RunStep-id (renew l n h e) = ground arith
  RunStep-id (report o n h e) = ground arith
  RunStep-id (succeed o m n h c e) = ground arith
  RunStep-id (give_up p n h c e) = ground arith
  RunStep-id (retry p f n h c m e) = ground arith
  RunStep-id (fail p f n h c e) = ground arith
  RunStep-id (expire p n h e) = ground arith
  RunStep-id (request n h e) = ground arith
  RunStep-id (cancel p n h e) = ground arith

  -- A transition keeps a row valid.
  pub RunStep-IsValid : RunStep run row → RunIsValid run → RunIsValid row
  unfolding claimed_run renewed_run succeeded_run cancelled_run retried_run failed_run expired_run
      cancelled_pending_run
  RunStep-IsValid (claim w l n h e) v = ground arith
  RunStep-IsValid (renew l n h e) v = ground arith
  RunStep-IsValid (report o n h e) v = ground arith
  RunStep-IsValid (succeed o m n h c e) v = ground arith
  RunStep-IsValid (give_up p n h c e) v = ground arith
  RunStep-IsValid (retry p f n h c m e) v = ground arith
  RunStep-IsValid (fail p f n h c e) v = ground arith
  RunStep-IsValid (expire p n h e) v = ground arith
  RunStep-IsValid (request n h e) v = ground arith
  RunStep-IsValid (cancel p n h e) v = ground arith

  -- No transition leaves a row that has ended.
  pub RunStep-live : RunStep run row → is_terminal run.status ≡ false
  RunStep-live (claim w l n h e) = ground arith
  RunStep-live (renew l n h e) = ground arith
  RunStep-live (report o n h e) = ground arith
  RunStep-live (succeed o m n h c e) = ground arith
  RunStep-live (give_up p n h c e) = ground arith
  RunStep-live (retry p f n h c m e) = ground arith
  RunStep-live (fail p f n h c e) = ground arith
  RunStep-live (expire p n h e) = ground arith
  RunStep-live (request n h e) = ground arith
  RunStep-live (cancel p n h e) = ground arith

  -- A cancellation that was requested is never taken back, and such a Run does not succeed.
  pub RunStep-cancelled :
      RunStep run row
      → run.cancel_requested ≡ true
      → (row.cancel_requested ≡ true)
        × ((row.status ≡ RunStatus.running) ⊎ (row.status ≡ RunStatus.cancelled))
        × (row.attempt_count ≡ run.attempt_count)
  unfolding claimed_run renewed_run succeeded_run cancelled_run retried_run failed_run expired_run
      cancelled_pending_run
  RunStep-cancelled (claim w l n h e) c = ground arith
  RunStep-cancelled (renew l n h e) c = ground arith
  RunStep-cancelled (report o n h e) c = ground arith
  RunStep-cancelled (succeed o m n h c' e) c = ground arith
  RunStep-cancelled (give_up p n h c' e) c = ground arith
  RunStep-cancelled (retry p f n h c' m e) c = ground arith
  RunStep-cancelled (fail p f n h c' e) c = ground arith
  RunStep-cancelled (expire p n h e) c = ground arith
  RunStep-cancelled (request n h e) c = ground arith
  RunStep-cancelled (cancel p n h e) c = ground arith
