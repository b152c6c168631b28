-- ===== src/Callbacks/Cancellation.antt =====
-- app/callbacks.py: what a requested cancellation does to the calls of an agent.
use diy_agent.Prelude.{
  ℕ, ◌≡◌, refl, String, Option, none, some, List, [], ◌∷◌, Bool, true, false, Json, Python, inl,
  inr, Option-cases, All, if_true, arith, not,
}
use diy_agent.Models.{Db, AgentRun, EventData}
use diy_agent.Store.Tables.{find_run}
use diy_agent.Store.Claim.{is_cancel_requested}
use diy_agent.Store.Progress.{record_tool_snapshot}
use diy_agent.Store.Writes.{DbIsValid}
use diy_agent.Store.History.{History}
use diy_agent.Store.History.Safety.{History-IsValid, History-cancelled}
use diy_agent.Worker.Histories.{Result-cases}
use diy_agent.Callbacks.Outputs.{outcome_is_error, build_tool_snapshot}
use diy_agent.Callbacks.Handlers.{
  CallKind, Progress, Callback, Times, Handled, cancelled, check_cancelled, admitted, open_model,
  on_chat_model_start, on_llm_end, open_tool, on_tool_start, tool_name, on_tool_end, on_tool_error,
  after_tool,
}
use diy_agent.Callbacks.Agent.{Call, Moment, handle, passed}
use diy_agent.Callbacks.Transactions.{WorldIsTransactional, handle-History, tool-History}

-- The end of a model's call, and a tool that raised: what a cancellation does not hold up.
abbrev pub looks_back : Call → Bool
looks_back (Call.model_end call_id) = true
looks_back (Call.tool_error call_id error_type) = true
looks_back call = false

module _ (py : Python) (loads : String → Option Json) (c : Callback) where
  -- The user wants the Run of this handler to stop.
  abbrev pub IsRequested : Db → Type 0
  IsRequested db =
      (run : AgentRun) × (find_run c.agent_run_id db.runs ≡ some run)
      × (run.cancel_requested ≡ true)

  History-IsRequested :
      {db after : Db} → DbIsValid db → History py db after → IsRequested db → IsRequested after
  History-IsRequested v h (run, found, requested) =
      let (later, there, still, same) = History-cancelled c.agent_run_id run v h found requested in
      (later, there, still.0)

  check_cancelled-IsRequested :
      (db : Db) (now : ℕ) → IsRequested db → check_cancelled c db now ≡ some cancelled
  unfolding check_cancelled is_cancel_requested
  check_cancelled-IsRequested db now (run, found, requested) =
      let e : is_cancel_requested db c.agent_run_id ≡ true =
        rw (found, is_cancel_requested) requested in
      if_true _ _ e

  admitted-IsRequested :
      (kind : CallKind) (p : Progress) (db : Db) (t : Times) (rest : Progress → Db → Handled)
      → IsRequested db
      → admitted c kind p db t rest ≡ (some cancelled, p, db)
  unfolding admitted
  admitted-IsRequested kind p db t rest h =
      rw (check_cancelled-IsRequested db t.first_at h, admitted) refl

  -- After a requested cancellation only what looks back goes through.
  handle-IsRequested :
      (call : Call) (p : Progress) (db : Db) (t : Times)
      → DbIsValid db
      → IsRequested db
      → (handle py loads c call p db t).0 ≡ none
      → looks_back call ≡ true
  unfolding handle on_chat_model_start on_llm_end on_tool_start on_tool_end on_tool_error
  handle-IsRequested (Call.model_start call_id) p db t v r h = absurd (
      ground (arith, rw (admitted-IsRequested CallKind.llm p db t (open_model c call_id t) r) at h))
  handle-IsRequested (Call.model_end call_id) p db t v r h = refl
  handle-IsRequested (Call.tool_start call_id serialized) p db t v r h = absurd (
      ground
        (arith, rw (admitted-IsRequested CallKind.tool p db t (open_tool c call_id _ t) r) at h))
  handle-IsRequested (Call.tool_end call_id output) p db t v r h =
      let name = tool_name call_id p.tools in
      let failed = outcome_is_error py loads output in
      elim (Result-cases (
        record_tool_snapshot py db c.agent_run_id c.worker_id name
          (build_tool_snapshot loads name output) (not failed) (EventData.tool name) t.first_at
          t.second_at)) [
            | inl (after, e) ↦
                let later = History-IsRequested v (tool-History py loads c db name _ _ _ _ _ e) r in
                absurd (
                  ground (
                    arith,
                    rw
                        (
                          e,
                          check_cancelled-IsRequested after t.third_at later,
                          handle,
                          on_tool_end,
                          after_tool,
                        )
                        at h,
                  ))
            | inr (lost, e) ↦ absurd (ground (arith, rw (e, handle, on_tool_end) at h))
          ]
  handle-IsRequested (Call.tool_error call_id error_type) p db t v r h = refl

  -- Once the cancellation of a Run was requested in valid tables, the calls of its handler that go
  -- through are ends of models' calls and errors of tools, whatever other transactions come in
  -- between: no call of a model or of a tool starts, and no result of a tool is accepted.
  pub passed-IsRequested :
      (moments : List Moment) (p : Progress) (db : Db) (run : AgentRun)
      → DbIsValid db
      → All (WorldIsTransactional py) moments
      → find_run c.agent_run_id db.runs ≡ some run
      → run.cancel_requested ≡ true
      → All (λ call. looks_back call ≡ true) (passed py loads c moments p db)
  unfolding passed
  passed-IsRequested [] p db run v worlds found requested = tt
  passed-IsRequested (m ∷ rest) p db run v worlds found requested =
      let now = m.world db in
      let there = History-IsRequested v (worlds.0 db) (run, found, requested) in
      let valid = History-IsValid v (worlds.0 db) in
      let ran = handle py loads c m.call p now m.times in
      elim (Option-cases ran.0) [
        | inr (error, e) ↦ rw (e, passed) tt
        | inl went ↦
            let writes = handle-History py loads c m.call p now m.times in
            let (next, found_next, still) = History-IsRequested valid writes there in
            rw (went, passed)
              (
                handle-IsRequested m.call p now m.times valid there went,
                passed-IsRequested rest ran.1 ran.2 next (History-IsValid valid writes) worlds.1
                    found_next still,
              )
      ]
