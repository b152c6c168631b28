-- ===== src/RunResults/Bounds/Failures.antt =====
-- app/run_results.py: the result of a failed attempt keeps the limits.
use diy_agent.Prelude.{
  ℕ, ◌≤◌, refl, String, Option, some, Bool, true, false, Python, text_length, take_text-length,
  is_some, if◌then◌else◌, arith,
}
use diy_agent.Schemas.{ComponentStatus, ResultComponent, Severity, Scope, StoredOutput}
use diy_agent.RunResults.Texts.{bounded_text}
use diy_agent.RunResults.Tools.{component, tool_warning}
use diy_agent.RunResults.Finish.{failed_component, unfinished_message, fail_result}
use diy_agent.RunResults.Bounds.{
  ComponentFits, ResultFits, StoredFits, StripShortens, add_warning-Fits, refit,
}
use diy_agent.RunResults.Bounds.Stored.{current_result-Fits, if-Fits}
use diy_agent.RunResults.Bounds.Tools.{component-Fits}

component_if-Fits :
    (test : Bool) (a b : ResultComponent)
    → ComponentFits a
    → ComponentFits b
    → ComponentFits (if test then a else b)
component_if-Fits true a b ha hb = ha
component_if-Fits false a b ha hb = hb

module _ (py : Python) (shortens : StripShortens py) where
  failed_component-Fits :
      (code message : String) (now : ℕ) (c : ResultComponent)
      → text_length code ≤ 100
      → ComponentFits c
      → ComponentFits (failed_component py code message now c)
  unfolding failed_component
  failed_component-Fits code message now c short h =
      let gone =
        component-Fits py shortens ComponentStatus.unavailable (some code) (some message) now in
      let kept : ComponentFits (
          if is_some c.inherited_from_run_id
          then record c {
            status = ComponentStatus.degraded;
            error_code = some code;
            message = some unfinished_message;
            updated_at = some now;
          }
          else c) =
        component_if-Fits (is_some c.inherited_from_run_id) _ _ (short, omega arith) h in
      elim c.status
        as (λ s. ComponentFits (elim s [
          | ComponentStatus.pending ↦
              component py ComponentStatus.unavailable (some code) (some message) now
          | _ ↦
              if is_some c.inherited_from_run_id
              then record c {
                status = ComponentStatus.degraded;
                error_code = some code;
                message = some unfinished_message;
                updated_at = some now;
              }
              else c
        ])) [ ComponentStatus.pending ↦ gone | _ ↦ kept ]

  -- The result of a failed attempt is within the limits, whatever the error says, and whether or
  -- not the Run ends with it.
  pub fail_result-Fits :
      (current : Option StoredOutput) (code message : String) (terminal : Bool) (now : ℕ)
      → StoredFits current
      → ResultFits (fail_result py current code message terminal now)
  unfolding fail_result
  fail_result-Fits current code message terminal now h =
      let v = current_result-Fits py shortens current now h in
      let (w, g, r) = v.components in
      let short_code = take_text-length 100 code in
      let short_message = take_text-length 2000 message in
      let ended =
        if-Fits terminal
          (refit v refl refl refl refl (
            failed_component-Fits (bounded_text code 100) (bounded_text message 2000) now _
                short_code w,
            failed_component-Fits (bounded_text code 100) (bounded_text message 2000) now _
                short_code g,
            failed_component-Fits (bounded_text code 100) (bounded_text message 2000) now _
                short_code r,
          ))
          v in
      let warned =
        add_warning-Fits _
          (tool_warning (bounded_text code 100) (bounded_text message 2000)
            (if terminal then Severity.error else Severity.warning) Scope.agent)
          ended (short_code, short_message) in
      refit warned refl refl refl refl warned.components
