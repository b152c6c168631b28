-- ===== src/RunResults/Tools.antt =====
-- app/run_results.py: `apply_tool_result`, branch by branch.
use diy_agent.Prelude.{
  ℕ, String, Option, none, some, List, [], ◌∷◌, Bool, Json, str, obj, end, Python, text_append, get,
  or_else, as_text, elements, is_obj, text_eq, has_token, any_of, or_default, is_some,
  if◌then◌else◌,
}
use diy_agent.Schemas.{
  ResultStatus, ComponentStatus, ResultComponent, ResultSource, ResultWarning, Severity, Scope,
  RunResult, StoredOutput,
}
use diy_agent.RunResults.Texts.{
  bounded_json, optional_bounded_text, optional_bounded_json, replace_source, add_warning,
}
use diy_agent.RunResults.Coerce.{current_result}

-- `_component`
unfoldable pub component :
    Python → ComponentStatus → Option String → Option String → ℕ → ResultComponent
component py status error_code message timestamp = record {
  status = status;
  error_code = optional_bounded_text py error_code 100;
  message = optional_bounded_text py message 1000;
  updated_at = some timestamp;
  inherited_from_run_id = none;
}

abbrev pub any_token : List String → String → Bool
any_token tokens text = any_of (λ token. has_token token text) tokens

-- `_warning_scope`
unfoldable pub warning_scope : Python → String → Scope
warning_scope py message =
    if any_token ("ors" ∷ "路线" ∷ "矩阵" ∷ "geocoder" ∷ "交通" ∷ []) (py.lower message)
    then Scope.route
    else Scope.guide

-- The weather tool returned a forecast.
unfoldable pub weather_succeeded : Python → RunResult → Json → ℕ → RunResult
unfolding component
weather_succeeded py result payload timestamp =
    let ready : RunResult = record result {
      weather_window = some payload;
      components = record (result.components) {
        weather = component py ComponentStatus.ready none none timestamp;
      };
    } in
    let source = get "source" payload in
    let sourced : RunResult =
      if is_obj source
      then replace_source py ready (record {
        provider = bounded_json py (or_else py (get "name" source) (str "Open-Meteo")) 100;
        title = "近期天气预报";
        url = optional_bounded_json py (get "forecast_url" source) 2000;
        purpose = "weather";
        fetched_at = timestamp;
      })
      else ready in
    let notice = py.strip (bounded_json py (get "notice" payload) 2000) in
    if text_eq notice ""
    then sourced
    else add_warning sourced (record {
      code = "WEATHER_FORECAST_NOTICE";
      message = notice;
      severity = Severity.info;
      scope = Scope.weather;
    })

-- A component after its tool failed: what was there before is kept and marked.
unfoldable pub failed_component :
    Python → ResultComponent → Bool → String → String → ℕ → ResultComponent
unfolding component
failed_component py previous has_artifact error_code message timestamp =
    record (component py
      (if has_artifact then ComponentStatus.degraded else ComponentStatus.unavailable)
      (some error_code) (some message) timestamp) {
        inherited_from_run_id = previous.inherited_from_run_id;
      }

abbrev pub tool_warning : String → String → Severity → Scope → ResultWarning
tool_warning code message severity scope = record {
  code = code;
  message = message;
  severity = severity;
  scope = scope;
}

-- The weather tool failed.
unfoldable pub weather_failed : Python → RunResult → String → String → ℕ → RunResult
unfolding failed_component
weather_failed py result error_code error_message timestamp =
    add_warning
      (record result {
        components = record (result.components) {
          weather =
              failed_component py result.components.weather (is_some result.weather_window)
                error_code error_message timestamp;
        };
      })
      (tool_warning error_code error_message Severity.error Scope.weather)

-- `raw_warnings`: the bounded texts of the warnings that are not blank.
unfoldable pub raw_warnings : Python → List Json → List String
raw_warnings py [] = []
raw_warnings py (item ∷ rest) =
    let others = raw_warnings py rest in
    if text_eq (py.strip (as_text py item)) ""
    then others
    else py.strip (bounded_json py item 2000) ∷ others

-- Whether a warning speaks of degraded route data.
unfoldable pub route_degraded : Python → List String → Bool
route_degraded py =
    any_of (λ warning. any_token ("ors" ∷ "矩阵" ∷ "geocoder" ∷ "降级" ∷ "替代" ∷ []) (py.lower warning))

-- The loop over `source_pages`.
unfoldable pub add_pages : Python → ℕ → List Json → RunResult → RunResult
add_pages py timestamp [] result = result
add_pages py timestamp (page ∷ rest) result = add_pages py timestamp rest (
    if is_obj page
    then replace_source py result (record {
      provider = "Wikivoyage";
      title = bounded_json py (or_else py (get "title" page) (str "Wikivoyage 攻略")) 500;
      url = optional_bounded_json py (get "url" page) 2000;
      purpose = "guide";
      fetched_at = timestamp;
    })
    else result)

-- The loop over the warnings of the guide tool.
unfoldable pub add_tool_warnings : Python → List String → RunResult → RunResult
add_tool_warnings py [] result = result
add_tool_warnings py (warning ∷ rest) result = add_tool_warnings py rest (
    add_warning result
      (tool_warning "TOOL_WARNING" warning Severity.warning (warning_scope py warning)))

abbrev pub ors_source : ℕ → ResultSource
ors_source timestamp = record {
  provider = "OpenRouteService";
  title = "路线与交通矩阵";
  url = some "https://openrouteservice.org/";
  purpose = "route";
  fetched_at = timestamp;
}

-- The guide tool returned an itinerary.
unfoldable pub guide_succeeded : Python → RunResult → Json → ℕ → RunResult
unfolding component route_degraded
guide_succeeded py result payload timestamp =
    let warnings = raw_warnings py (elements (get "warnings" payload)) in
    let degraded = route_degraded py warnings in
    let planned : RunResult = record result {
      itinerary = some payload;
      components = record (result.components) {
        guide = component py ComponentStatus.ready none none timestamp;
        route =
            component py (if degraded then ComponentStatus.degraded else ComponentStatus.ready) none
              (if degraded then some "路线包含降级数据。" else none) timestamp;
      };
    } in
    let paged = add_pages py timestamp (elements (get "source_pages" payload)) planned in
    add_tool_warnings py warnings (replace_source py paged (ors_source timestamp))

-- The guide tool failed.
unfoldable pub guide_failed : Python → RunResult → String → String → ℕ → RunResult
unfolding failed_component
guide_failed py result error_code error_message timestamp =
    let failed = λ (previous : ResultComponent).
      failed_component py previous (is_some result.itinerary) error_code error_message timestamp in
    add_warning
      (record result {
        components = record (result.components) {
          guide = failed result.components.guide;
          route = failed result.components.route;
        };
      })
      (tool_warning error_code error_message Severity.error
        (if has_token "ORS" error_code then Scope.route else Scope.guide))

abbrev pub weather_tool : String
weather_tool = "find_best_weather_window"

abbrev pub guide_tool : String
guide_tool = "plan_wikivoyage_trip"

-- The dispatch of `apply_tool_result` on the tool and its success.
unfoldable pub dispatch_tool :
    Python → RunResult → String → Json → Bool → String → String → ℕ → RunResult
dispatch_tool py result tool_name payload succeeded error_code error_message timestamp =
    if text_eq tool_name weather_tool
    then (if succeeded
        then weather_succeeded py result payload timestamp
        else weather_failed py result error_code error_message timestamp)
    else if text_eq tool_name guide_tool
    then (if succeeded
        then guide_succeeded py result payload timestamp
        else guide_failed py result error_code error_message timestamp)
    else result

-- `apply_tool_result`
unfoldable pub apply_tool_result :
    Python → Option StoredOutput → String → Option Json → Bool → ℕ → RunResult
unfolding dispatch_tool
apply_tool_result py current tool_name snapshot succeeded now =
    let payload = or_default snapshot (obj end) in
    let error_code =
      bounded_json py (or_else py (get "error_code" payload) (str "TOOL_EXECUTION_FAILED")) 100 in
    let error_message =
      bounded_json py (or_else py (get "message" payload) (str (text_append tool_name " 执行失败。")))
        2000 in
    record (dispatch_tool py (current_result py current now) tool_name payload succeeded error_code
      error_message now) { result_status = ResultStatus.partial; generated_at = now }
