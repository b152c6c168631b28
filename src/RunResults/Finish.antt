-- ===== src/RunResults/Finish.antt =====
-- app/run_results.py: the results of a Run that succeeded, failed or is tried again.
use diy_agent.Prelude.{
  ℕ, String, Option, none, some, List, [], ◌∷◌, Bool, not, ◌&&◌, Json, str, arr, nil, Python, get,
  or_else, as_text, elements, is_obj, text_eq, is_some, if◌then◌else◌,
}
use diy_agent.Schemas.{
  ResultStatus, ComponentStatus, ResultComponent, ResultComponents, Severity, Scope, RunResult,
  StoredOutput,
}
use diy_agent.RunResults.Texts.{
  bounded_text, bounded_json, optional_bounded_json, replace_source, add_warning,
}
use diy_agent.RunResults.Coerce.{current_result}
use diy_agent.RunResults.Initial.{has_content}
use diy_agent.RunResults.Tools.{component, tool_warning}

-- The loop of `complete_result` over the sources of the answer.
unfoldable pub add_answer_sources : Python → ℕ → List Json → RunResult → RunResult
add_answer_sources py timestamp [] result = result
add_answer_sources py timestamp (item ∷ rest) result = add_answer_sources py timestamp rest (
    if is_obj item
    then replace_source py result (record {
      provider = bounded_json py (or_else py (get "provider" item) (str "Agent reference")) 100;
      title = bounded_json py (or_else py (get "title" item) (str "参考来源")) 500;
      url = optional_bounded_json py (get "url" item) 2000;
      purpose = bounded_json py (or_else py (get "purpose" item) (str "guide")) 100;
      fetched_at = timestamp;
    })
    else result)

-- What the loop iterates over: the entries of an array, and none for an object or a text, whose
-- keys and characters are no mappings. There is no value where Python raises `TypeError`, for a
-- number or a Boolean.
unfoldable pub answer_entries : Json → Option (List Json)
answer_entries (Json.bool b) = none
answer_entries (Json.num n) = none
answer_entries value = some (elements value)

-- `answer.get("sources") or answer.get("reference") or []`
abbrev pub answer_sources : Python → Json → Json
answer_sources py answer =
    or_else py (or_else py (get "sources" answer) (get "reference" answer)) (arr nil)

-- A component that is still pending when the Run has succeeded.
unfoldable pub settle_component : Python → ℕ → ResultComponent → ResultComponent
unfolding component
settle_component py timestamp previous = elim previous.status [
  | ComponentStatus.pending ↦
      component py ComponentStatus.unavailable none (some "本次 Run 未生成该组件。") timestamp
  | _ ↦ previous
]

abbrev pub map_components :
    (ResultComponent → ResultComponent) → ResultComponents → ResultComponents
map_components f c = record { weather = f c.weather; guide = f c.guide; route = f c.route }

-- The status of a finished result.
unfoldable pub final_status : Python → String → ResultComponents → ResultStatus
final_status py answer c =
    if not (text_eq (py.strip answer) "")
      && has_content c.weather.status
      && has_content c.guide.status
      && has_content c.route.status
    then ResultStatus.complete
    else ResultStatus.partial

-- `complete_result` after its first statement that may raise, for the entries of the answer.
unfoldable pub completed_with : Python → Option StoredOutput → Json → List Json → ℕ → RunResult
unfolding final_status settle_component
completed_with py current answer listed now =
    let text =
      as_text py
        (or_else py (or_else py (get "assistant_answer" answer) (get "answer" answer)) (str "")) in
    let answered : RunResult = record (current_result py current now) { assistant_answer = text } in
    let sourced = add_answer_sources py now listed answered in
    let components = map_components (settle_component py now) sourced.components in
    record sourced {
      components = components;
      result_status = final_status py text components;
      generated_at = now;
    }

-- `complete_result`; nothing where it raises `TypeError`.
unfoldable pub complete_result : Python → Option StoredOutput → Json → ℕ → Option RunResult
unfolding answer_entries completed_with
complete_result py current answer now = elim (answer_entries (answer_sources py answer)) [
  | none ↦ none
  | some listed ↦ some (completed_with py current answer listed now)
]

abbrev pub unfinished_message : String
unfinished_message = "本次 Run 未完成，当前展示内容沿用上一成功版本。"

-- What `fail_result` makes of a component at the end of a Run.
unfoldable pub failed_component : Python → String → String → ℕ → ResultComponent → ResultComponent
unfolding component
failed_component py error_code error_message timestamp previous = elim previous.status [
  | ComponentStatus.pending ↦
      component py ComponentStatus.unavailable (some error_code) (some error_message) timestamp
  | _ ↦
      if is_some previous.inherited_from_run_id
      then record previous {
        status = ComponentStatus.degraded;
        error_code = some error_code;
        message = some unfinished_message;
        updated_at = some timestamp;
      }
      else previous
]

-- `fail_result`
unfoldable pub fail_result : Python → Option StoredOutput → String → String → Bool → ℕ → RunResult
unfolding failed_component
fail_result py current error_code error_message terminal now =
    let code = bounded_text error_code 100 in
    let message = bounded_text error_message 2000 in
    let result = current_result py current now in
    let ended : RunResult =
      if terminal
      then record result {
        result_status = ResultStatus.failed;
        components = map_components (failed_component py code message now) result.components;
      }
      else result in
    record (add_warning ended (
      tool_warning code message (if terminal then Severity.error else Severity.warning)
        Scope.agent)) { generated_at = now }
