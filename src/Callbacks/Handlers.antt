-- ===== src/Callbacks/Handlers.antt =====
-- app/callbacks.py: `ProgressCallback`. A handler returns what it raises, if it does, the handler's
-- state, and the tables. Spans and the metrics of calls are left out; `_models` and `_tools` keep
-- the calls that are open, a tool with its name.
use diy_agent.Prelude.{
  ℕ, suc, String, Option, none, some, List, [], ◌∷◌, Bool, true, false, not, ◌==◌, leb, keep_if,
  Json, str, obj, end, field, Python, get, or_else, as_text, truthy, if◌then◌else◌,
}
use diy_agent.Models.{Db, EventType, EventData}
use diy_agent.Store.Tables.{
  StoreError, Result, ok, err, run_not_found, worker_lease_lost, bad_answer,
}
use diy_agent.Store.Events.{append_event}
use diy_agent.Store.Claim.{is_cancel_requested, worker_has_lease}
use diy_agent.Store.Progress.{record_tool_snapshot}
use diy_agent.Callbacks.Outputs.{
  ToolOutput, outcome_is_error, tool_result_object, build_tool_snapshot,
}

-- The `kind` of an invocation.
pub data CallKind : Type 0 where
  llm tool : CallKind

-- What a handler may raise: `RunCancelled`, `WorkerLeaseLost`, `RunInvocationLimitExceeded`,
-- `ToolExecutionFailed`, and the `LookupError` of the store.
pub data CallbackError : Type 0 where
  cancelled : CallbackError
  lease_lost : CallbackError
  limit_exceeded : CallKind → ℕ → CallbackError
  tool_failed : String → String → Bool → CallbackError
  not_found : CallbackError

-- The attributes of `ProgressCallback` that change.
pub record Progress : Type 0 where
  pub models : List ℕ
  pub tools : List (ℕ × String)
  pub thinking_emitted : Bool
  pub llm_call_count : ℕ
  pub tool_call_count : ℕ

-- The attributes that do not.
pub record Callback : Type 0 where
  pub agent_run_id : ℕ
  pub worker_id : ℕ
  pub max_llm_calls : ℕ
  pub max_tool_calls : ℕ

-- `__init__`
abbrev pub no_progress : Progress
no_progress = record {
  models = [];
  tools = [];
  thinking_emitted = false;
  llm_call_count = 0;
  tool_call_count = 0;
}

-- The readings of the clock in one handler, in their order.
pub record Times : Type 0 where
  pub first_at : ℕ
  pub second_at : ℕ
  pub third_at : ℕ

-- The outcome of a handler.
abbrev pub Handled : Type 0
Handled = Option CallbackError × Progress × Db

-- The error of a handler's transaction. `bad_answer` is raised by `complete_run` only, which no
-- handler calls.
abbrev pub raised : StoreError → CallbackError
raised run_not_found = not_found
raised worker_lease_lost = lease_lost
raised bad_answer = not_found

abbrev pub limit_of : Callback → CallKind → ℕ
limit_of c CallKind.llm = c.max_llm_calls
limit_of c CallKind.tool = c.max_tool_calls

abbrev pub count_of : Progress → CallKind → ℕ
count_of p CallKind.llm = p.llm_call_count
count_of p CallKind.tool = p.tool_call_count

abbrev pub is_llm : CallKind → Bool
is_llm CallKind.llm = true
is_llm CallKind.tool = false

abbrev pub count_call : CallKind → Progress → Progress
count_call CallKind.llm p = record p { llm_call_count = suc p.llm_call_count }
count_call CallKind.tool p = record p { tool_call_count = suc p.tool_call_count }

-- What stands after an `_append` that went through, and what a failed one raises.
abbrev pub appended_or : Progress → Progress → Db → Option CallbackError → Result Db → Handled
appended_or failed done db error (ok after) = (error, done, after)
appended_or failed done db error (err e) = (some (raised e), failed, db)

-- `state.name if state is not None else "unknown_tool"`
abbrev pub tool_name : ℕ → List (ℕ × String) → String
tool_name call_id [] = "unknown_tool"
tool_name call_id ((other, name) ∷ rest) = if other == call_id then name else tool_name call_id rest

-- `self._tools.pop(call_id, None)`
abbrev pub without_tool : ℕ → Progress → Progress
without_tool call_id p = record p { tools = keep_if (λ entry. not (entry.0 == call_id)) p.tools }

-- The error that `on_tool_end` raises for a tool that reports one.
unfoldable pub tool_failure : Python → (String → Option Json) → ToolOutput → CallbackError
tool_failure py loads output =
    let result : Json = elim (tool_result_object loads output) [
      | none ↦ obj end
      | some fs ↦ obj fs
    ] in
    tool_failed (as_text py (or_else py (get "error_code" result) (str "TOOL_EXECUTION_FAILED")))
      (as_text py (or_else py (get "message" result) (str "Tool 执行失败。")))
      (truthy py (get "retryable" result))

abbrev pub callback_error : Json
callback_error = obj (
    field "status" (str "error") (
      field "error_code" (str "TOOL_CALLBACK_ERROR")
        (field "message" (str "Tool 调用异常，请稍后重试。") end)))

-- What follows a reservation that went through.
abbrev pub after_reserve : (Progress → Db → Handled) → Handled → Handled
after_reserve rest reserved = elim reserved.0 [
  | some error ↦ reserved
  | none ↦ rest reserved.1 reserved.2
]

module _ (c : Callback) where
  -- `_check_cancelled`
  unfoldable pub check_cancelled : Db → ℕ → Option CallbackError
  check_cancelled db now =
      if is_cancel_requested db c.agent_run_id
      then some cancelled
      else if worker_has_lease db c.agent_run_id c.worker_id now
      then none
      else some lease_lost

  -- `_append`
  unfoldable pub append : Db → EventType → EventData → ℕ → Result Db
  append db type payload now = append_event db c.agent_run_id type payload (some c.worker_id) now

  -- `_reserve_invocation`
  unfoldable pub reserve_invocation : CallKind → Progress → Db → ℕ → Handled
  unfolding append
  reserve_invocation kind p db now =
      if leb (limit_of c kind) (count_of p kind)
      then appended_or p p db (some (limit_exceeded kind (limit_of c kind))) (
          append db EventType.context_limit_reached
            (EventData.limit (is_llm kind) (limit_of c kind) p.llm_call_count p.tool_call_count)
            now)
      else (none, count_call kind p, db)

  -- The start of a call: `_check_cancelled`, `_reserve_invocation`, and the rest of the handler.
  unfoldable pub admitted : CallKind → Progress → Db → Times → (Progress → Db → Handled) → Handled
  unfolding check_cancelled reserve_invocation
  admitted kind p db t rest = elim (check_cancelled db t.first_at) [
    | some error ↦ (some error, p, db)
    | none ↦ after_reserve rest (reserve_invocation kind p db t.second_at)
  ]

  -- `on_chat_model_start` after the reservation.
  unfoldable pub open_model : ℕ → Times → Progress → Db → Handled
  unfolding append
  open_model call_id t p db =
      let opened : Progress = record p { models = call_id ∷ p.models } in
      if p.thinking_emitted
      then (none, opened, db)
      else appended_or p (record opened { thinking_emitted = true }) db none
          (append db EventType.agent_thinking EventData.thinking t.third_at)

  -- `on_chat_model_start`
  unfoldable pub on_chat_model_start : ℕ → Progress → Db → Times → Handled
  unfolding admitted open_model
  on_chat_model_start call_id p db t = admitted CallKind.llm p db t (open_model call_id t)

  -- `on_llm_end` and `on_llm_error`
  unfoldable pub on_llm_end : ℕ → Progress → Db → Handled
  on_llm_end call_id p db =
      (none, record p { models = keep_if (λ m. not (m == call_id)) p.models }, db)

  -- `on_tool_start` after the reservation.
  unfoldable pub open_tool : ℕ → String → Times → Progress → Db → Handled
  unfolding append
  open_tool call_id name t p db =
      appended_or p (record p { tools = (call_id, name) ∷ p.tools }) db none
        (append db EventType.tool_started (EventData.tool name) t.third_at)

  -- `on_tool_start`; the name is read from the tool's description.
  unfoldable pub on_tool_start : Python → ℕ → Json → Progress → Db → Times → Handled
  unfolding admitted open_tool
  on_tool_start py call_id serialized p db t =
      admitted CallKind.tool p db t
        (open_tool call_id (as_text py (or_else py (get "name" serialized) (str "unknown_tool"))) t)

  -- `on_tool_end` after the snapshot: `_check_cancelled`, then the tool's own error.
  abbrev pub after_tool : Db → ℕ → Bool → CallbackError → Option CallbackError
  after_tool db now failed error = elim (check_cancelled db now) [
    | some refused ↦ some refused
    | none ↦ if failed then some error else none
  ]

  -- `on_tool_end`
  unfoldable pub on_tool_end :
      Python → (String → Option Json) → ℕ → ToolOutput → Progress → Db → Times → Handled
  unfolding tool_failure check_cancelled
  on_tool_end py loads call_id output p db t =
      let name = tool_name call_id p.tools in
      let failed = outcome_is_error py loads output in
      let closed = without_tool call_id p in
      elim (record_tool_snapshot py db c.agent_run_id c.worker_id name
        (build_tool_snapshot loads name output) (not failed) (EventData.tool name) t.first_at
        t.second_at) [
          | err e ↦ (some (raised e), closed, db)
          | ok after ↦
              (after_tool after t.third_at failed (tool_failure py loads output), closed, after)
        ]

  -- `on_tool_error`; `error_type` is the name of the exception's class.
  unfoldable pub on_tool_error : Python → ℕ → String → Progress → Db → Times → Handled
  on_tool_error py call_id error_type p db t =
      let name = tool_name call_id p.tools in
      let closed = without_tool call_id p in
      appended_or closed closed db none (
        record_tool_snapshot py db c.agent_run_id c.worker_id name (some callback_error) false
          (EventData.tool_error name error_type) t.first_at t.second_at)
