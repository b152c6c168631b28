-- ===== src/RunResults/Initial.antt =====
-- app/run_results.py: the first result of a Run, and the record of its context.
use diy_agent.Prelude.{
  ℕ, String, Option, none, some, Bool, true, false, [], null, bool, num, str, arr, obj, end, field,
  Python, if◌then◌else◌,
}
use diy_agent.Schemas.{
  ResultStatus, ComponentStatus, ResultComponent, PlanningRequest, RunResult, StoredOutput, v1,
  legacy, empty_request, ContextUsage,
}
use diy_agent.RunResults.Coerce.{bare_component, current_result}

-- Whether `previous_output` is there and not the empty dictionary.
abbrev pub has_output : Option StoredOutput → Bool
has_output none = false
has_output (some (v1 result)) = true
has_output (some (legacy (obj end))) = false
has_output (some (legacy (obj (field k v fs)))) = true
has_output (some (legacy null)) = false
has_output (some (legacy (bool b))) = true
has_output (some (legacy (num n))) = true
has_output (some (legacy (str s))) = true
has_output (some (legacy (arr xs))) = true

-- `a` if it is given, else `b`.
abbrev pub given_or : {A : Type 0} → Option A → Option A → Option A
given_or none b = b
given_or (some a) b = some a

-- `{**inherited, **supplied}` without the supplied nulls, under the new message.
unfoldable pub merge_request : String → PlanningRequest → Option PlanningRequest → PlanningRequest
merge_request message inherited none = record inherited { message = message }
merge_request message inherited (some supplied) = record {
  message = message;
  city = given_or supplied.city inherited.city;
  trip_days = given_or supplied.trip_days inherited.trip_days;
  interests = supplied.interests;
  budget = given_or supplied.budget inherited.budget;
  additional_preferences =
      given_or supplied.additional_preferences inherited.additional_preferences;
}

-- `component.status in {READY, DEGRADED}`
abbrev pub has_content : ComponentStatus → Bool
has_content ComponentStatus.ready = true
has_content ComponentStatus.degraded = true
has_content _ = false

abbrev pub inherited_message : String
inherited_message = "沿用上一版结果，等待本次 Run 确认或更新。"

-- The loop over the components that a new Run takes over from the Run `run_id`.
unfoldable pub inherit_component : ℕ → ResultComponent → ResultComponent
inherit_component run_id component =
    if has_content component.status
    then record component { inherited_from_run_id = some run_id; message = some inherited_message }
    else component

-- A result with the defaults of `RunResultV1`, for the given request.
unfoldable pub fresh_result : PlanningRequest → ℕ → Option ℕ → ℕ → RunResult
fresh_result request plan_revision supersedes now = record {
  result_status = ResultStatus.partial;
  generated_at = now;
  plan_revision = plan_revision;
  supersedes_run_id = supersedes;
  request = request;
  assistant_answer = "";
  weather_window = none;
  itinerary = none;
  sources = [];
  warnings = [];
  components = record {
    weather = bare_component ComponentStatus.pending;
    guide = bare_component ComponentStatus.pending;
    route = bare_component ComponentStatus.pending;
  };
  context_usage = none;
}

-- What a new result takes over from the result of the Run `run_id`.
unfoldable pub inherit_result : ℕ → RunResult → RunResult → RunResult
unfolding inherit_component
inherit_result run_id previous result = record result {
  weather_window = previous.weather_window;
  itinerary = previous.itinerary;
  sources = previous.sources;
  warnings = previous.warnings;
  components = record {
    weather = inherit_component run_id previous.components.weather;
    guide = inherit_component run_id previous.components.guide;
    route = inherit_component run_id previous.components.route;
  };
}

-- The result before inheritance: the request is that of the previous result, if there is one.
unfoldable pub revised_result :
    Python → String → Option PlanningRequest → ℕ → Option ℕ → Option StoredOutput → ℕ → RunResult
unfolding merge_request fresh_result
revised_result py message planning_context plan_revision supersedes previous_output now =
    let inherited : PlanningRequest =
      if has_output previous_output
      then (current_result py previous_output now).request
      else empty_request in
    fresh_result (merge_request message inherited planning_context) plan_revision supersedes now

-- `build_initial_result`
unfoldable pub build_initial_result :
    Python → String → Option PlanningRequest → ℕ → Option ℕ → Option StoredOutput → ℕ → RunResult
unfolding revised_result inherit_result
build_initial_result py message planning_context plan_revision none previous_output now =
    revised_result py message planning_context plan_revision none previous_output now
build_initial_result py message planning_context plan_revision (some run_id) previous_output now =
    let result =
      revised_result py message planning_context plan_revision (some run_id) previous_output now in
    if has_output previous_output
    then inherit_result run_id (current_result py previous_output now) result
    else result

-- `apply_context_usage`
unfoldable pub apply_context_usage : Python → Option StoredOutput → ContextUsage → ℕ → RunResult
apply_context_usage py current usage now = record (current_result py current now) {
  context_usage = some usage;
  generated_at = now;
}
