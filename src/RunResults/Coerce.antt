-- ===== src/RunResults/Coerce.antt =====
-- app/run_results.py: reading a stored result, and the first result of a Run.
use diy_agent.Prelude.{
  ℕ, String, Option, none, some, List, [], ◌∷◌, Bool, true, false, not, Json, str, obj, end, Python,
  get, or_else, as_text, elements, is_obj, text_eq, take, or_default, if◌then◌else◌,
}
use diy_agent.Schemas.{
  ResultStatus, ComponentStatus, ResultComponent, ResultComponents, ResultSource, ResultWarning,
  Severity, Scope, RunResult, StoredOutput, v1, legacy, empty_request,
}
use diy_agent.Models.{RunStatus, is_terminal}
use diy_agent.RunResults.Texts.{bounded_text, bounded_json, optional_bounded_json}

-- `run_status in {FAILED, CANCELLED}`
abbrev pub is_unsuccessful : Option RunStatus → Bool
is_unsuccessful (some RunStatus.failed) = true
is_unsuccessful (some RunStatus.cancelled) = true
is_unsuccessful _ = false

-- `_terminal_component_status`
unfoldable pub terminal_component_status : Option RunStatus → ComponentStatus
terminal_component_status none = ComponentStatus.pending
terminal_component_status (some status) =
    if is_terminal status then ComponentStatus.unavailable else ComponentStatus.pending

-- `ResultComponent(status=status)`
abbrev pub bare_component : ComponentStatus → ResultComponent
bare_component s = record {
  status = s;
  error_code = none;
  message = none;
  updated_at = none;
  inherited_from_run_id = none;
}

-- `_empty_components`
unfoldable pub empty_components : Option RunStatus → ResultComponents
unfolding terminal_component_status
empty_components run_status =
    let status = terminal_component_status run_status in
    record {
      weather = bare_component status;
      guide = bare_component status;
      route = bare_component status;
    }

-- `_status_from_run`
unfoldable pub status_from_run : Option RunStatus → ResultStatus
status_from_run run_status =
    if is_unsuccessful run_status then ResultStatus.failed else ResultStatus.partial

-- One round of the loop of `_legacy_sources`, for an item that is a mapping.
unfoldable pub legacy_source : Python → ℕ → Json → ResultSource
legacy_source py fetched_at item = record {
  provider = "legacy";
  title = bounded_json py (or_else py (get "title" item) (str "历史引用")) 500;
  url = optional_bounded_json py (get "url" item) 2000;
  purpose = "guide";
  fetched_at = fetched_at;
}

-- The loop of `_legacy_sources`: items that are no mapping are skipped.
unfoldable pub legacy_sources_of : Python → ℕ → List Json → List ResultSource
unfolding legacy_source
legacy_sources_of py fetched_at [] = []
legacy_sources_of py fetched_at (item ∷ rest) =
    let others = legacy_sources_of py fetched_at rest in
    if is_obj item then legacy_source py fetched_at item ∷ others else others

-- `_legacy_sources`
unfoldable pub legacy_sources : Python → Json → ℕ → List ResultSource
unfolding legacy_sources_of
legacy_sources py value fetched_at = legacy_sources_of py fetched_at (take 100 (elements value))

-- `text` is neither missing nor empty.
abbrev pub has_text : Option String → Bool
has_text none = false
has_text (some text) = not (text_eq text "")

-- `error_code or "RUN_FAILED"`
abbrev pub code_or : Option String → String → String
code_or none d = d
code_or (some code) d = if text_eq code "" then d else code

-- The warning that a failed Run without a result leaves.
unfoldable pub legacy_warnings : Option String → Option String → List ResultWarning
legacy_warnings error_code error_message =
    if has_text error_message
    then record {
      code = bounded_text (code_or error_code "RUN_FAILED") 100;
      message = bounded_text (code_or error_message "") 2000;
      severity = Severity.error;
      scope = Scope.agent;
    }
      ∷ []
    else []

-- The branch of `coerce_run_result` for a value that is no valid result.
unfoldable pub upgrade_legacy :
    Python → Json → Option RunStatus → ℕ → Option String → Option String → RunResult
unfolding status_from_run legacy_sources legacy_warnings empty_components
upgrade_legacy py value run_status timestamp error_code error_message = record {
  result_status = status_from_run run_status;
  generated_at = timestamp;
  plan_revision = 1;
  supersedes_run_id = none;
  request = empty_request;
  assistant_answer =
      as_text py
        (or_else py (or_else py (get "assistant_answer" value) (get "answer" value)) (str ""));
  weather_window = none;
  itinerary = none;
  sources = legacy_sources py (or_else py (get "sources" value) (get "reference" value)) timestamp;
  warnings = legacy_warnings error_code error_message;
  components = empty_components run_status;
  context_usage = none;
}

-- `coerce_run_result`; `now` is read where no `generated_at` is given.
unfoldable pub coerce_run_result :
    Python
    → Option StoredOutput
    → Option RunStatus
    → Option ℕ
    → Option String
    → Option String
    → ℕ
    → RunResult
unfolding upgrade_legacy
coerce_run_result py none run_status generated_at error_code error_message now =
    upgrade_legacy py (obj end) run_status (or_default generated_at now) error_code error_message
coerce_run_result py (some (legacy value)) run_status generated_at error_code error_message now =
    upgrade_legacy py value run_status (or_default generated_at now) error_code error_message
coerce_run_result py (some (v1 result)) run_status generated_at error_code error_message now =
    if is_unsuccessful run_status
    then record result { result_status = ResultStatus.failed }
    else result

-- `RunResultV1.model_validate(coerce_run_result(current))`
unfoldable pub current_result : Python → Option StoredOutput → ℕ → RunResult
unfolding coerce_run_result
current_result py current now = coerce_run_result py current none none none none now
