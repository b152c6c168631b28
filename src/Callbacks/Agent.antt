-- ===== src/Callbacks/Agent.antt =====
-- app/callbacks.py and app/worker.py: an agent that calls models and tools. `raise_error = True`
-- makes an exception of a handler end the agent.
use diy_agent.Prelude.{ℕ, String, Option, none, some, List, [], ◌∷◌, Json, Python, text_append}
use diy_agent.Models.{Db}
use diy_agent.Store.Progress.{RunExecutionInput}
use diy_agent.Context.Prepare.{PreparedContext}
use diy_agent.Worker.{AttemptEnd}
use diy_agent.Callbacks.Outputs.{ToolOutput}
use diy_agent.Callbacks.Handlers.{
  CallKind, CallbackError, Progress, Callback, Times, Handled, no_progress, on_chat_model_start,
  on_llm_end, on_tool_start, on_tool_end, on_tool_error,
}

-- What the agent tells its handler.
pub data Call : Type 0 where
  model_start : ℕ → Call
  model_end : ℕ → Call
  tool_start : ℕ → Json → Call
  tool_end : ℕ → ToolOutput → Call
  tool_error : ℕ → String → Call

-- A call, and what other transactions did to the tables since the one before it: renewals of the
-- lease, a cancellation by the user, the work of other Workers.
pub record Moment : Type 0 where
  pub world : Db → Db
  pub call : Call
  pub times : Times

module _ (py : Python) (loads : String → Option Json) (c : Callback) where
  -- The handler of each call.
  unfoldable pub handle : Call → Progress → Db → Times → Handled
  unfolding on_chat_model_start on_llm_end on_tool_start on_tool_end on_tool_error
  handle (Call.model_start call_id) p db t = on_chat_model_start c call_id p db t
  handle (Call.model_end call_id) p db t = on_llm_end c call_id p db
  handle (Call.tool_start call_id serialized) p db t = on_tool_start c py call_id serialized p db t
  handle (Call.tool_end call_id output) p db t = on_tool_end c py loads call_id output p db t
  handle (Call.tool_error call_id error_type) p db t = on_tool_error c py call_id error_type p db t

  -- All calls up to the first that raises.
  unfoldable pub drive : List Moment → Progress → Db → Handled
  unfolding handle
  drive [] p db = (none, p, db)
  drive (m ∷ rest) p db =
      let h = handle m.call p (m.world db) m.times in
      elim h.0 [ some error ↦ (some error, h.1, h.2) | none ↦ drive rest h.1 h.2 ]

  -- The calls that went through.
  unfoldable pub passed : List Moment → Progress → Db → List Call
  unfolding handle
  passed [] p db = []
  passed (m ∷ rest) p db =
      let h = handle m.call p (m.world db) m.times in
      elim h.0 [ some error ↦ [] | none ↦ m.call ∷ passed rest h.1 h.2 ]

-- The text of `RunInvocationLimitExceeded`; `digits` prints a number.
abbrev pub limit_text : (ℕ → String) → CallKind → ℕ → String
limit_text digits kind limit =
    text_append (elim kind [ CallKind.llm ↦ "LLM" | CallKind.tool ↦ "TOOL" ])
      (text_append " 调用次数已达到本次 Run 的上限 " (text_append (digits limit) "。"))

-- How an exception of the handler reaches the `except` clauses of `execute_run`.
unfoldable pub attempt_end : (ℕ → String) → CallbackError → AttemptEnd
attempt_end digits CallbackError.cancelled = AttemptEnd.run_cancelled "用户已请求取消任务。"
attempt_end digits CallbackError.lease_lost = AttemptEnd.lease_lost
attempt_end digits (CallbackError.limit_exceeded kind limit) =
    AttemptEnd.limit_exceeded (limit_text digits kind limit)
attempt_end digits (CallbackError.tool_failed code text retryable) =
    AttemptEnd.tool_failed code text retryable
attempt_end digits CallbackError.not_found = AttemptEnd.crashed

-- The agent as the runner of `execute_run`, with a new handler: its answer, or its own exception,
-- counts where no handler raised.
unfoldable pub run_agent :
    Python
    → (String → Option Json)
    → (ℕ → String)
    → Callback
    → List Moment
    → Option Json
    → RunExecutionInput
    → PreparedContext
    → Db
    → AttemptEnd × Db
unfolding drive attempt_end
run_agent py loads digits c moments answer input context db =
    let ran = drive py loads c moments no_progress db in
    (
      elim ran.0 [
        | some error ↦ attempt_end digits error
        | none ↦ elim answer [
          | some output ↦ AttemptEnd.answered output
          | none ↦ AttemptEnd.crashed
        ]
      ],
      ran.2,
    )
