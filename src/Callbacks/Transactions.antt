-- ===== src/Callbacks/Transactions.antt =====
-- app/callbacks.py: what the handlers write are transactions of the store.
use diy_agent.Prelude.{
  ℕ, ◌≡◌, sym, subst, String, Option, none, some, List, [], ◌∷◌, Bool, true, false, not, Json,
  Python, inl, inr, Option-cases, All, if◌then◌else◌, leb,
}
use diy_agent.Models.{Db, EventType, EventData}
use diy_agent.Store.Tables.{ok}
use diy_agent.Store.Events.{append_event}
use diy_agent.Store.Progress.{record_tool_snapshot}
use diy_agent.Store.History.{Transaction, tool, History, start, then_do}
use diy_agent.Context.Tokens.{Encoding}
use diy_agent.Context.Budget.{ContextPolicy}
use diy_agent.Worker.{Clock, execute_run}
use diy_agent.Worker.Histories.{Result-cases, History-trans, execute_run-History}
use diy_agent.Callbacks.Outputs.{outcome_is_error, build_tool_snapshot}
use diy_agent.Callbacks.Handlers.{
  CallKind, CallbackError, Progress, Callback, Times, Handled, no_progress, check_cancelled, append,
  appended_or, reserve_invocation, after_reserve, limit_of, count_of, admitted, open_model,
  on_chat_model_start, on_llm_end, open_tool, on_tool_start, tool_name, on_tool_end, callback_error,
  on_tool_error, without_tool,
}
use diy_agent.Callbacks.Agent.{Call, Moment, handle, drive, run_agent}

-- The tables between two calls change by transactions.
abbrev pub WorldIsTransactional : Python → Moment → Type 0
WorldIsTransactional py m = (db : Db) → History py db (m.world db)

module _ (py : Python) (loads : String → Option Json) (c : Callback) where
  appended-History :
      (failed done : Progress) (db : Db) (error : Option CallbackError) (type : EventType)
      (payload : EventData) (now : ℕ)
      → History py db (appended_or failed done db error (append c db type payload now)).2
  unfolding append
  appended-History failed done db error type payload now =
      elim (Result-cases (append_event db c.agent_run_id type payload (some c.worker_id) now)) [
        | inl (after, e) ↦
            subst (λ r. History py db (appended_or failed done db error r).2) (sym e)
              (then_do start
                (Transaction.append c.agent_run_id type payload (some c.worker_id) now e))
        | inr (lost, e) ↦
            subst (λ r. History py db (appended_or failed done db error r).2) (sym e) start
      ]

  if-History :
      {db : Db} (test : Bool) (a b : Handled)
      → History py db a.2
      → History py db b.2
      → History py db (if test then a else b).2
  if-History true a b ha hb = ha
  if-History false a b ha hb = hb

  reserve-History :
      (kind : CallKind) (p : Progress) (db : Db) (now : ℕ)
      → History py db (reserve_invocation c kind p db now).2
  unfolding reserve_invocation
  reserve-History kind p db now =
      if-History (leb (limit_of c kind) (count_of p kind)) _ _ (appended-History p p db _ _ _ now)
        start

  reserved-History :
      {db : Db} (rest : Progress → Db → Handled)
      → ((q : Progress) (after : Db) → History py after (rest q after).2)
      → (reserved : Handled) → History py db reserved.2
      → History py db (after_reserve rest reserved).2
  reserved-History rest h (some error, q, after) before = before
  reserved-History rest h (none, q, after) before = History-trans before (h q after)

  admitted-History :
      (kind : CallKind) (p : Progress) (db : Db) (t : Times) (rest : Progress → Db → Handled)
      → ((q : Progress) (after : Db) → History py after (rest q after).2)
      → History py db (admitted c kind p db t rest).2
  unfolding admitted
  admitted-History kind p db t rest h = elim (Option-cases (check_cancelled c db t.first_at)) [
    | inr (error, e) ↦ rw (e, admitted) start
    | inl free ↦
        rw (free, admitted)
          (reserved-History rest h (reserve_invocation c kind p db t.second_at)
            (reserve-History kind p db t.second_at))
  ]

  pub tool-History :
      (db : Db) (name : String) (snapshot : Option Json) (fine : Bool) (payload : EventData)
      (t u : ℕ) {after : Db}
      → record_tool_snapshot py db c.agent_run_id c.worker_id name snapshot fine payload t u
        ≡ ok after
      → History py db after
  tool-History db name snapshot fine payload t u e =
      then_do start (tool c.agent_run_id c.worker_id name snapshot fine payload t u e)

  -- Every handler's writes are transactions of the store.
  pub handle-History :
      (call : Call) (p : Progress) (db : Db) (t : Times)
      → History py db (handle py loads c call p db t).2
  unfolding handle on_chat_model_start on_llm_end on_tool_start on_tool_end on_tool_error open_model
      open_tool
  handle-History (Call.model_start call_id) p db t =
      admitted-History CallKind.llm p db t (open_model c call_id t) (λ q after.
        if-History q.thinking_emitted _ _ start
          (appended-History q _ after none EventType.agent_thinking EventData.thinking t.third_at))
  handle-History (Call.model_end call_id) p db t = start
  handle-History (Call.tool_start call_id serialized) p db t =
      admitted-History CallKind.tool p db t (open_tool c call_id _ t)
        (λ q after. appended-History q _ after none EventType.tool_started _ t.third_at)
  handle-History (Call.tool_end call_id output) p db t =
      let name = tool_name call_id p.tools in
      let failed = outcome_is_error py loads output in
      elim (Result-cases (
        record_tool_snapshot py db c.agent_run_id c.worker_id name
          (build_tool_snapshot loads name output) (not failed) (EventData.tool name) t.first_at
          t.second_at)) [
            | inl (after, e) ↦
                rw (e, on_tool_end)
                  (tool-History db name (build_tool_snapshot loads name output) (not failed)
                    (EventData.tool name) t.first_at t.second_at e)
            | inr (lost, e) ↦ rw (e, on_tool_end) start
          ]
  handle-History (Call.tool_error call_id error_type) p db t =
      let name = tool_name call_id p.tools in
      let closed = without_tool call_id p in
      elim (Result-cases (
        record_tool_snapshot py db c.agent_run_id c.worker_id name (some callback_error) false
          (EventData.tool_error name error_type) t.first_at t.second_at)) [
            | inl (after, e) ↦
                subst (λ r. History py db (appended_or closed closed db none r).2) (sym e)
                  (tool-History db name (some callback_error) false
                    (EventData.tool_error name error_type) t.first_at t.second_at e)
            | inr (lost, e) ↦
                subst (λ r. History py db (appended_or closed closed db none r).2) (sym e) start
          ]

  drive-History :
      (moments : List Moment) (p : Progress) (db : Db)
      → All (WorldIsTransactional py) moments
      → History py db (drive py loads c moments p db).2
  unfolding drive
  drive-History [] p db h = start
  drive-History (m ∷ rest) p db h =
      let here = History-trans (h.0 db) (handle-History m.call p (m.world db) m.times) in
      let ran = handle py loads c m.call p (m.world db) m.times in
      elim (Option-cases ran.0) [
        | inr (error, e) ↦ rw (e, drive) here
        | inl went ↦ rw (went, drive) (History-trans here (drive-History rest ran.1 ran.2 h.1))
      ]

  -- A whole attempt with an agent that calls models and tools under its handler, in whatever order
  -- and with whatever answer, while other transactions come in between, is a history of the
  -- tables. So all that holds of every history, above all the limit of attempts and the fate of
  -- ended and of cancelled Runs, holds of the running program.
  pub run_agent-History :
      (digits : ℕ → String) (moments : List Moment) (answer : Option Json)
      (squeeze : String → String) (encoding : Option Encoding) (policy : ContextPolicy) (db : Db)
      (delay : ℕ) (lost : Bool) (message_id : ℕ) (clock : Clock)
      → All (WorldIsTransactional py) moments
      → History py db (
          execute_run py squeeze encoding policy
            (run_agent py loads digits c moments answer)
            db
            c.agent_run_id
            c.worker_id
            delay
            lost
            message_id
            clock)
  unfolding run_agent
  run_agent-History digits moments answer squeeze encoding policy db delay lost message_id clock h =
      execute_run-History py squeeze encoding policy (run_agent py loads digits c moments answer)
        (λ input context mid. drive-History moments no_progress mid h) db c.agent_run_id c.worker_id
        delay lost message_id clock
