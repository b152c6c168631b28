-- ===== src/RunResults/Outcomes.antt =====
-- app/run_results.py: what a finished result says of its components.
use text.Mathlib.TextPositions.{eq_refl}
use diy_agent.Prelude.{
  ℕ, zero, suc, ◌-◌, ◌≤◌, ◌≡◌, ◌⊎◌, Option-cases, none, some, ◌∙◌, refl, String, Option, List, [],
  ◌∷◌, ◌++◌, Bool, true, false, not, ◌&&◌, ◌||◌, Json, str, Python, get, or_else, as_text, is_obj,
  text_eq, any_of, drop, length, length-append, Bool-cases, inl, inr, if◌then◌else◌, arith,
}
use diy_agent.Schemas.{
  ResultStatus, ComponentStatus, ResultComponent, ResultComponents, ResultSource, ResultWarning,
  Severity, Scope, RunResult, StoredOutput,
}
use diy_agent.RunResults.Texts.{
  bounded_text, same_warning, scope_eq, added_warnings, add_warning, replace_source,
}
use diy_agent.RunResults.Coerce.{current_result}
use diy_agent.RunResults.Initial.{has_content}
use diy_agent.RunResults.Tools.{component, tool_warning}
use diy_agent.RunResults.Finish.{
  add_answer_sources, settle_component, map_components, final_status, complete_result,
  answer_entries, answer_sources, completed_with, failed_component, fail_result,
}

abbrev pub is_unsettled : ResultComponent → Bool
is_unsettled c = elim c.status [ ComponentStatus.pending ↦ true | _ ↦ false ]

abbrev pub has_pending : ResultComponents → Bool
has_pending c = is_unsettled c.weather || is_unsettled c.guide || is_unsettled c.route

abbrev pub all_have_content : ResultComponents → Bool
all_have_content c =
    has_content c.weather.status && has_content c.guide.status && has_content c.route.status

settle_component-content :
    (py : Python) (now : ℕ) (c : ResultComponent)
    → has_content (settle_component py now c).status ≡ has_content c.status
unfolding settle_component component
settle_component-content py now c = ground arith

settle_component-settled :
    (py : Python) (now : ℕ) (c : ResultComponent) → is_unsettled (settle_component py now c) ≡ false
unfolding settle_component component
settle_component-settled py now c = ground arith

sources_only :
    (test : Bool) (result : RunResult) (a b : List ResultSource)
    → record (if test then record result { sources = a } else result) { sources = b }
      ≡ record result { sources = b }
sources_only true result a b = refl
sources_only false result a b = refl

-- The sources of the answer change nothing else.
add_answer_sources-rest :
    (py : Python) (now : ℕ) (items : List Json) (result : RunResult)
    → (sources : List ResultSource) × (add_answer_sources py now items result
        ≡ record result { sources = sources })
unfolding add_answer_sources replace_source
add_answer_sources-rest py now [] result = (result.sources, refl)
add_answer_sources-rest py now (item ∷ rest) result =
    let (sources, e) = add_answer_sources-rest py now rest _ in
    (sources, e ∙ sources_only (is_obj item) result _ sources)

final_status-content :
    (py : Python) (answer : String) (c d : ResultComponents)
    → all_have_content c ≡ all_have_content d
    → final_status py answer c ≡ (
        if not (text_eq (py.strip answer) "") && all_have_content d
        then ResultStatus.complete
        else ResultStatus.partial)
unfolding final_status
final_status-content py answer c d e = ground (arith, e)

settled-content :
    (py : Python) (now : ℕ) (c : ResultComponents)
    → all_have_content (map_components (settle_component py now) c) ≡ all_have_content c
settled-content py now c =
    rw
      (
        settle_component-content py now c.weather,
        settle_component-content py now c.guide,
        settle_component-content py now c.route,
      )
      refl

settled_none_pending :
    (py : Python) (now : ℕ) (c : ResultComponents)
    → has_pending (map_components (settle_component py now) c) ≡ false
settled_none_pending py now c =
    rw
      (
        settle_component-settled py now c.weather,
        settle_component-settled py now c.guide,
        settle_component-settled py now c.route,
      )
      refl

module _ (py : Python) where
  -- What a completed result is, by the result before it.
  abbrev pub Settled : Option StoredOutput → ℕ → RunResult → Type 0
  Settled current now final =
      (has_pending final.components ≡ false)
      × (final.result_status ≡ (
          if not (text_eq (py.strip final.assistant_answer) "")
            && all_have_content (current_result py current now).components
          then ResultStatus.complete
          else ResultStatus.partial))
      × (final.weather_window ≡ (current_result py current now).weather_window)
      × (final.itinerary ≡ (current_result py current now).itinerary)
      × (final.warnings ≡ (current_result py current now).warnings)

  completed_with-Settled :
      (current : Option StoredOutput) (answer : Json) (listed : List Json) (now : ℕ)
      → Settled current now (completed_with py current answer listed now)
  unfolding completed_with
  completed_with-Settled current answer listed now =
      let before = current_result py current now in
      let text =
        as_text py (
          or_else py (or_else py (get "assistant_answer" answer) (get "answer" answer)) (str "")) in
      let (sources, e) =
        add_answer_sources-rest py now listed (record before { assistant_answer = text }) in
      rw e (
        settled_none_pending py now before.components,
        final_status-content py text (map_components (settle_component py now) before.components)
            before.components (settled-content py now before.components),
        refl,
        refl,
        refl,
      )

  -- `complete_result` raises exactly if the sources of the answer are a number or a Boolean.
  -- Otherwise its result has no component pending, and is complete exactly if the answer is not
  -- blank and every component had content before; the weather window, the itinerary and the
  -- warnings are those of before.
  pub complete_result-settles :
      (current : Option StoredOutput) (answer : Json) (now : ℕ)
      → ((answer_entries (answer_sources py answer) ≡ none)
          × (complete_result py current answer now ≡ none))
        ⊎ ((final : RunResult) × (complete_result py current answer now ≡ some final)
            × Settled current now final)
  unfolding complete_result
  complete_result-settles current answer now =
      elim (Option-cases (answer_entries (answer_sources py answer))) [
        | inl missing ↦ inl (missing, ground arith)
        | inr (listed, there) ↦ inr (
          completed_with py current answer listed now,
          ground arith,
          completed_with-Settled current answer listed now,
        )
      ]

-- The newest entry of a bounded list stays.
drop-last :
    (n : ℕ) (xs : List ResultWarning) (test : ResultWarning → Bool) (w : ResultWarning)
    → n ≤ length xs
    → test w ≡ true
    → any_of test (drop n (xs ++ w ∷ [])) ≡ true
drop-last zero [] test w short hit = ground arith
drop-last zero (x ∷ xs) test w short hit = ground (arith, drop-last zero xs test w)
drop-last (suc n) [] test w short hit = absurd (omega arith)
drop-last (suc n) (x ∷ xs) test w short hit = drop-last n xs test w (omega arith) hit

same_warning_refl : (w : ResultWarning) → same_warning w w ≡ true
unfolding same_warning
same_warning_refl w =
    elim w.scope
      as (λ s. (text_eq w.code w.code && text_eq w.message w.message && scope_eq s s) ≡ true) [
        | Scope.weather ↦ rw (eq_refl w.code, eq_refl w.message) refl
        | Scope.guide ↦ rw (eq_refl w.code, eq_refl w.message) refl
        | Scope.route ↦ rw (eq_refl w.code, eq_refl w.message) refl
        | Scope.agent ↦ rw (eq_refl w.code, eq_refl w.message) refl
      ]

added_warnings-has :
    (warnings : List ResultWarning) (w : ResultWarning)
    → any_of (λ item. same_warning item w) (added_warnings warnings w) ≡ true
unfolding added_warnings
added_warnings-has warnings w = elim (Bool-cases (any_of (λ item. same_warning item w) warnings)) [
  | inl there ↦ rw there there
  | inr fresh ↦ rw fresh (
      drop-last (length (warnings ++ w ∷ []) - 100) warnings (λ item. same_warning item w) w
        (omega (arith, length-append warnings (w ∷ []))) (same_warning_refl w))
]

failed_component-settled :
    (py : Python) (code message : String) (now : ℕ) (c : ResultComponent)
    → is_unsettled (failed_component py code message now c) ≡ false
unfolding failed_component component
failed_component-settled py code message now c = ground arith

module _ (py : Python) where
  -- The result of a failed attempt names its error among the warnings. If the Run ends with it, the
  -- status is failed and no component is pending any more; otherwise status and components stay
  -- for the next attempt. What was planned before is not lost either way.
  pub fail_result-ends :
      (current : Option StoredOutput) (code message : String) (terminal : Bool) (now : ℕ)
      → (any_of
            (λ item.
              text_eq item.code (bounded_text code 100)
              && text_eq item.message (bounded_text message 2000)
              && scope_eq item.scope Scope.agent)
            (fail_result py current code message terminal now).warnings
          ≡ true)
        × ((fail_result py current code message terminal now).result_status ≡ (
            if terminal
            then ResultStatus.failed
            else (current_result py current now).result_status))
        × (has_pending (fail_result py current code message terminal now).components
            ≡ (not terminal && has_pending (current_result py current now).components))
        × ((fail_result py current code message terminal now).weather_window
            ≡ (current_result py current now).weather_window)
        × ((fail_result py current code message terminal now).itinerary
            ≡ (current_result py current now).itinerary)
        × ((fail_result py current code message terminal now).assistant_answer
            ≡ (current_result py current now).assistant_answer)
  unfolding fail_result add_warning same_warning
  fail_result-ends current code message true now =
      let c = (current_result py current now).components in
      let failed =
        failed_component-settled py (bounded_text code 100) (bounded_text message 2000) now in
      (
        added_warnings-has (current_result py current now).warnings (
            tool_warning (bounded_text code 100) (bounded_text message 2000) Severity.error
              Scope.agent),
        refl,
        rw (failed c.weather, failed c.guide, failed c.route) refl,
        refl,
        refl,
        refl,
      )
  fail_result-ends current code message false now = (
    added_warnings-has (current_result py current now).warnings (
        tool_warning (bounded_text code 100) (bounded_text message 2000) Severity.warning
          Scope.agent),
    refl,
    refl,
    refl,
    refl,
    refl,
  )
