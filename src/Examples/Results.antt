-- ===== src/Examples/Results.antt =====
-- Results of one Run.
use diy_agent.Prelude.{
  ◌≡◌, ◌⊎◌, refl, none, some, true, false, ◌&&◌, str, field, end, obj, Json, text_eq, any_of, arith,
}
use diy_agent.Schemas.{ResultStatus, Scope, StoredOutput, legacy, v1, RunResult}
use diy_agent.RunResults.{
  build_initial_result, apply_tool_result, answer_entries, answer_sources, complete_result,
  fail_result,
}
use diy_agent.RunResults.Texts.{bounded_text, scope_eq}
use diy_agent.RunResults.Coerce.{current_result}
use diy_agent.RunResults.Bounds.{ResultFits, StripShortens}
use diy_agent.RunResults.Bounds.Tools.{apply_tool_result-Fits}
use diy_agent.RunResults.Bounds.Ends.{build_initial_result-Fits, complete_result-Fits}
use diy_agent.RunResults.Bounds.Failures.{fail_result-Fits}
use diy_agent.RunResults.Outcomes.{Settled, has_pending, complete_result-settles, fail_result-ends}
use diy_agent.Examples.Samples.{plain, answer}

plain_shortens : StripShortens plain
plain_shortens text = omega arith

-- A result of an earlier version of the program.
abbrev old : StoredOutput
old = legacy answer

abbrev notice : Json
notice = obj (field "notice" (str "rain") end)

apply_tool_result-Fits_example :
    ResultFits (apply_tool_result plain (some old) "find_best_weather_window" (some notice) true 20)
apply_tool_result-Fits_example =
    apply_tool_result-Fits plain plain_shortens (some old) "find_best_weather_window" (some notice)
      true 20 tt

build_initial_result-Fits_example :
    ResultFits (build_initial_result plain "Kyoto" none 2 (some 5) (some old) 10)
build_initial_result-Fits_example =
    build_initial_result-Fits plain plain_shortens "Kyoto" none 2 (some 5) (some old) 10
      (omega arith) tt (omega arith) tt

abbrev first_result : StoredOutput
first_result = v1 (build_initial_result plain "Kyoto" none 1 none none 10)

first_result-Fits : ResultFits (build_initial_result plain "Kyoto" none 1 none none 10)
first_result-Fits =
    build_initial_result-Fits plain plain_shortens "Kyoto" none 1 none none 10 (omega arith) tt
      (omega arith) tt

complete_result-Fits_example :
    ((answer_entries (answer_sources plain answer) ≡ none)
      × (complete_result plain (some first_result) answer 30 ≡ none))
    ⊎ ((final : RunResult) × (complete_result plain (some first_result) answer 30 ≡ some final)
        × ResultFits final)
complete_result-Fits_example =
    complete_result-Fits plain plain_shortens (some first_result) answer 30 first_result-Fits

-- An answer whose sources Python cannot iterate over.
abbrev unlisted : Json
unlisted = obj (field "sources" (Json.bool true) end)

complete_result_raises : complete_result plain (some first_result) unlisted 30 ≡ none
unfolding complete_result answer_entries
complete_result_raises = refl

fail_result-Fits_example :
    ResultFits (fail_result plain (some first_result) "TIMEOUT" "late" true 30)
fail_result-Fits_example =
    fail_result-Fits plain plain_shortens (some first_result) "TIMEOUT" "late" true 30
      first_result-Fits

complete_result-settles_example :
    ((answer_entries (answer_sources plain answer) ≡ none)
      × (complete_result plain (some old) answer 30 ≡ none))
    ⊎ ((final : RunResult) × (complete_result plain (some old) answer 30 ≡ some final)
        × Settled plain (some old) 30 final)
complete_result-settles_example = complete_result-settles plain (some old) answer 30

fail_result-ends_example :
    (any_of
        (λ item.
          text_eq item.code (bounded_text "TIMEOUT" 100)
          && text_eq item.message (bounded_text "late" 2000)
          && scope_eq item.scope Scope.agent)
        (fail_result plain (some old) "TIMEOUT" "late" true 30).warnings
      ≡ true)
    × ((fail_result plain (some old) "TIMEOUT" "late" true 30).result_status ≡ ResultStatus.failed)
    × (has_pending (fail_result plain (some old) "TIMEOUT" "late" true 30).components ≡ false)
    × ((fail_result plain (some old) "TIMEOUT" "late" true 30).weather_window
        ≡ (current_result plain (some old) 30).weather_window)
    × ((fail_result plain (some old) "TIMEOUT" "late" true 30).itinerary
        ≡ (current_result plain (some old) 30).itinerary)
    × ((fail_result plain (some old) "TIMEOUT" "late" true 30).assistant_answer
        ≡ (current_result plain (some old) 30).assistant_answer)
fail_result-ends_example = fail_result-ends plain (some old) "TIMEOUT" "late" true 30
