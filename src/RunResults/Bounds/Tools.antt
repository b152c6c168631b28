-- ===== src/RunResults/Bounds/Tools.antt =====
-- app/run_results.py: applying a tool result keeps the limits.
use diy_agent.Prelude.{
  ℕ, ◌≤◌, refl, String, Option, none, some, List, [], ◌∷◌, Bool, Json, obj, end, str, Python,
  text_length, get, or_else, as_text, elements, is_obj, is_some, text_eq, or_default, All,
  Bool-cases, inl, inr, if◌then◌else◌, arith,
}
use diy_agent.Schemas.{ComponentStatus, ResultComponent, ResultSource, RunResult, StoredOutput}
use diy_agent.RunResults.Texts.{bounded_json, optional_bounded_json, replace_source}
use diy_agent.RunResults.Coerce.{current_result}
use diy_agent.RunResults.Tools.{
  component, weather_succeeded, failed_component, weather_failed, raw_warnings, route_degraded,
  add_pages, add_tool_warnings, ors_source, guide_succeeded, guide_failed, weather_tool, guide_tool,
  dispatch_tool, apply_tool_result,
}
use diy_agent.RunResults.Bounds.{
  SourceFits, ComponentFits, ResultFits, StoredFits, StripShortens, bounded_json-length,
  optional_bounded_text-AtMost, optional_bounded_json-AtMost, replace_source-Fits, add_warning-Fits,
  refit,
}
use diy_agent.RunResults.Bounds.Stored.{current_result-Fits, if-Fits}

module _ (py : Python) (shortens : StripShortens py) where
  pub component-Fits :
      (status : ComponentStatus) (code message : Option String) (now : ℕ)
      → ComponentFits (component py status code message now)
  unfolding component
  component-Fits status code message now = (
    optional_bounded_text-AtMost py shortens code 100,
    optional_bounded_text-AtMost py shortens message 1000,
  )

  weather_succeeded-Fits :
      (result : RunResult) (payload : Json) (now : ℕ)
      → ResultFits result
      → ResultFits (weather_succeeded py result payload now)
  unfolding weather_succeeded component
  weather_succeeded-Fits result payload now v =
      let (w, g, r) = v.components in
      let source = get "source" payload in
      let ready : RunResult = record result {
        weather_window = some payload;
        components = record (result.components) {
          weather = component py ComponentStatus.ready none none now;
        };
      } in
      let ready_fits : ResultFits ready =
        refit v refl refl refl refl (component-Fits ComponentStatus.ready none none now, g, r) in
      let entry : ResultSource = record {
        provider = bounded_json py (or_else py (get "name" source) (str "Open-Meteo")) 100;
        title = "近期天气预报";
        url = optional_bounded_json py (get "forecast_url" source) 2000;
        purpose = "weather";
        fetched_at = now;
      } in
      let entry_fits : SourceFits entry = (
        bounded_json-length py _ 100,
        omega arith,
        optional_bounded_json-AtMost py shortens _ 2000,
        omega arith,
      ) in
      let sourced = if is_obj source then replace_source py ready entry else ready in
      let sourced_fits : ResultFits sourced =
        if-Fits (is_obj source) (replace_source-Fits py ready entry ready_fits entry_fits)
          ready_fits in
      let notice = bounded_json py (get "notice" payload) 2000 in
      if-Fits _ sourced_fits (
        add_warning-Fits sourced _ sourced_fits (
          omega arith,
          omega (arith, shortens notice, bounded_json-length py (get "notice" payload) 2000),
        ))

  add_pages-Fits :
      (now : ℕ) (pages : List Json) (result : RunResult)
      → ResultFits result
      → ResultFits (add_pages py now pages result)
  unfolding add_pages
  add_pages-Fits now [] result v = v
  add_pages-Fits now (page ∷ rest) result v = add_pages-Fits now rest _ (
      if-Fits (is_obj page)
        (replace_source-Fits py result _ v (
          omega arith,
          bounded_json-length py _ 500,
          optional_bounded_json-AtMost py shortens _ 2000,
          omega arith,
        ))
        v)

  raw_warnings-length :
      (items : List Json) → All (λ w. text_length w ≤ 2000) (raw_warnings py items)
  unfolding raw_warnings
  raw_warnings-length [] = tt
  raw_warnings-length (item ∷ rest) = elim (Bool-cases (text_eq (py.strip (as_text py item)) "")) [
    | inl blank ↦ rw blank (raw_warnings-length rest)
    | inr said ↦ rw said (
      omega (arith, shortens (bounded_json py item 2000), bounded_json-length py item 2000),
      raw_warnings-length rest,
    )
  ]

  add_tool_warnings-Fits :
      (texts : List String) (result : RunResult)
      → All (λ w. text_length w ≤ 2000) texts
      → ResultFits result
      → ResultFits (add_tool_warnings py texts result)
  unfolding add_tool_warnings
  add_tool_warnings-Fits [] result h v = v
  add_tool_warnings-Fits (text ∷ rest) result h v =
      add_tool_warnings-Fits rest _ h.1 (add_warning-Fits result _ v (omega arith, h.0))

  failed_component-Fits :
      (previous : ResultComponent) (kept : Bool) (code message : String) (now : ℕ)
      → ComponentFits (failed_component py previous kept code message now)
  unfolding failed_component
  failed_component-Fits previous kept code message now =
      component-Fits (if kept then ComponentStatus.degraded else ComponentStatus.unavailable)
        (some code) (some message) now

  guide_succeeded-Fits :
      (result : RunResult) (payload : Json) (now : ℕ)
      → ResultFits result
      → ResultFits (guide_succeeded py result payload now)
  unfolding guide_succeeded
  guide_succeeded-Fits result payload now v =
      let (w, g, r) = v.components in
      let degraded = route_degraded py (raw_warnings py (elements (get "warnings" payload))) in
      add_tool_warnings-Fits (raw_warnings py (elements (get "warnings" payload))) _
        (raw_warnings-length (elements (get "warnings" payload)))
        (replace_source-Fits py _ (ors_source now)
          (add_pages-Fits now (elements (get "source_pages" payload)) _ (
            refit v refl refl refl refl (
              w,
              component-Fits ComponentStatus.ready none none now,
              component-Fits (if degraded then ComponentStatus.degraded else ComponentStatus.ready)
                  none (if degraded then some "路线包含降级数据。" else none) now,
            )))
          (omega arith, omega arith, omega arith, omega arith))

  dispatch_tool-Fits :
      (result : RunResult) (name : String) (payload : Json) (ok : Bool) (code message : String)
      (now : ℕ)
      → text_length code ≤ 100
      → text_length message ≤ 2000
      → ResultFits result
      → ResultFits (dispatch_tool py result name payload ok code message now)
  unfolding dispatch_tool weather_failed guide_failed
  dispatch_tool-Fits result name payload ok code message now hc hm v =
      let (w, g, r) = v.components in
      if-Fits (text_eq name weather_tool)
        (if-Fits ok (weather_succeeded-Fits result payload now v) (
          add_warning-Fits _ _
            (refit v refl refl refl refl (
              failed_component-Fits result.components.weather (is_some result.weather_window) code
                  message now,
              g,
              r,
            ))
            (hc, hm)))
        (if-Fits (text_eq name guide_tool)
          (if-Fits ok (guide_succeeded-Fits result payload now v) (
            add_warning-Fits _ _
              (refit v refl refl refl refl (
                w,
                failed_component-Fits result.components.guide (is_some result.itinerary) code
                    message now,
                failed_component-Fits result.components.route (is_some result.itinerary) code
                    message now,
              ))
              (hc, hm)))
          v)

  -- A result within the limits of the schema, or any earlier stored value, is within them again
  -- after a tool result was applied, whatever the tool returned and however it ended, where
  -- `str.strip` does not lengthen a text.
  pub apply_tool_result-Fits :
      (current : Option StoredOutput) (name : String) (snapshot : Option Json) (ok : Bool) (now : ℕ)
      → StoredFits current
      → ResultFits (apply_tool_result py current name snapshot ok now)
  unfolding apply_tool_result
  apply_tool_result-Fits current name snapshot ok now h =
      let done =
        dispatch_tool-Fits (current_result py current now) name (or_default snapshot (obj end)) ok _
          _ now (bounded_json-length py _ 100) (bounded_json-length py _ 2000)
          (current_result-Fits py shortens current now h) in
      refit done refl refl refl refl done.components
