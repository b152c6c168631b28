-- ===== src/RunResults/Bounds/Ends.antt =====
-- app/run_results.py: the first and the last result of a Run keep the limits.
use diy_agent.Prelude.{
  ℕ, ◌≤◌, ◌≡◌, ◌⊎◌, Option-cases, refl, String, Option, none, some, List, [], ◌∷◌, Bool, true,
  false, Json, Python, text_length, is_obj, Bool-cases, inl, inr, if◌then◌else◌, arith,
}
use diy_agent.Schemas.{
  ComponentStatus, ResultComponent, PlanningRequest, RunResult, StoredOutput, empty_request,
}
use diy_agent.RunResults.Coerce.{current_result}
use diy_agent.RunResults.Initial.{
  has_output, has_content, given_or, merge_request, inherit_component, inherit_result, fresh_result,
  revised_result, build_initial_result,
}
use diy_agent.RunResults.Tools.{component}
use diy_agent.RunResults.Finish.{
  add_answer_sources, settle_component, answer_entries, answer_sources, completed_with,
  complete_result,
}
use diy_agent.RunResults.Bounds.{
  AtMost, DaysFit, ComponentFits, RequestFits, ResultFits, StoredFits, StripShortens,
  bounded_json-length, optional_bounded_json-AtMost, replace_source-Fits, refit,
}
use diy_agent.RunResults.Bounds.Stored.{current_result-Fits, if-Fits, empty_request-Fits}
use diy_agent.RunResults.Bounds.Tools.{component-Fits}

-- A planning context within the limits, or none.
abbrev pub ContextFits : Option PlanningRequest → Type 0
ContextFits none = Unit
ContextFits (some request) = RequestFits request

given_or-AtMost : (n : ℕ) (a b : Option String) → AtMost n a → AtMost n b → AtMost n (given_or a b)
given_or-AtMost n none b ha hb = hb
given_or-AtMost n (some a) b ha hb = ha

given_or-DaysFit : (a b : Option ℕ) → DaysFit a → DaysFit b → DaysFit (given_or a b)
given_or-DaysFit none b ha hb = hb
given_or-DaysFit (some a) b ha hb = ha

merge_request-Fits :
    (message : String) (inherited : PlanningRequest) (supplied : Option PlanningRequest)
    → text_length message ≤ 20000
    → RequestFits inherited
    → ContextFits supplied
    → RequestFits (merge_request message inherited supplied)
unfolding merge_request
merge_request-Fits message inherited none short v h = record {
  message = short;
  city = v.city;
  trip_days = v.trip_days;
  interests = v.interests;
  each_interest = v.each_interest;
  budget = v.budget;
  preferences = v.preferences;
}
merge_request-Fits message inherited (some supplied) short v h = record {
  message = short;
  city = given_or-AtMost 80 supplied.city inherited.city h.city v.city;
  trip_days = given_or-DaysFit supplied.trip_days inherited.trip_days h.trip_days v.trip_days;
  interests = h.interests;
  each_interest = h.each_interest;
  budget = given_or-AtMost 300 supplied.budget inherited.budget h.budget v.budget;
  preferences =
      given_or-AtMost 2000 supplied.additional_preferences inherited.additional_preferences
        h.preferences v.preferences;
}

inherit_component-Fits :
    (run_id : ℕ) (c : ResultComponent)
    → ComponentFits c
    → ComponentFits (inherit_component run_id c)
unfolding inherit_component
inherit_component-Fits run_id c h = elim (Bool-cases (has_content c.status)) [
  | inl there ↦ rw there (h.0, omega arith)
  | inr lacks ↦ rw lacks h
]

module _ (py : Python) (shortens : StripShortens py) where
  revised_result-Fits :
      (message : String) (context : Option PlanningRequest) (revision : ℕ) (supersedes : Option ℕ)
      (previous : Option StoredOutput) (now : ℕ)
      → text_length message ≤ 20000
      → ContextFits context
      → 1 ≤ revision
      → StoredFits previous
      → ResultFits (revised_result py message context revision supersedes previous now)
  unfolding revised_result fresh_result
  revised_result-Fits message context revision supersedes previous now short h one v = record {
    revision = one;
    request = merge_request-Fits message _ context short (inherited_fits (has_output previous)) h;
    sources = omega arith;
    each_source = tt;
    warnings = omega arith;
    each_warning = tt;
    components = ((tt, tt), (tt, tt), (tt, tt));
  }
    where
      inherited_fits :
          (test : Bool)
          → RequestFits (if test then (current_result py previous now).request else empty_request)
      inherited_fits true = (current_result-Fits py shortens previous now v).request
      inherited_fits false = empty_request-Fits

  -- The first result of a Run is within the limits of the schema, where the message, the planning
  -- context and the result that it takes over are, and the plan's revision counts from 1.
  pub build_initial_result-Fits :
      (message : String) (context : Option PlanningRequest) (revision : ℕ) (supersedes : Option ℕ)
      (previous : Option StoredOutput) (now : ℕ)
      → text_length message ≤ 20000
      → ContextFits context
      → 1 ≤ revision
      → StoredFits previous
      → ResultFits (build_initial_result py message context revision supersedes previous now)
  unfolding build_initial_result inherit_result
  build_initial_result-Fits message context revision none previous now short h one v =
      revised_result-Fits message context revision none previous now short h one v
  build_initial_result-Fits message context revision (some run_id) previous now short h one v =
      let made =
        revised_result-Fits message context revision (some run_id) previous now short h one v in
      let before = current_result-Fits py shortens previous now v in
      let (w, g, r) = before.components in
      if-Fits (has_output previous)
        (record {
          revision = made.revision;
          request = made.request;
          sources = before.sources;
          each_source = before.each_source;
          warnings = before.warnings;
          each_warning = before.each_warning;
          components = (
            inherit_component-Fits run_id _ w,
            inherit_component-Fits run_id _ g,
            inherit_component-Fits run_id _ r,
          );
        })
        made

  add_answer_sources-Fits :
      (now : ℕ) (items : List Json) (result : RunResult)
      → ResultFits result
      → ResultFits (add_answer_sources py now items result)
  unfolding add_answer_sources
  add_answer_sources-Fits now [] result v = v
  add_answer_sources-Fits now (item ∷ rest) result v = add_answer_sources-Fits now rest _ (
      if-Fits (is_obj item)
        (replace_source-Fits py result _ v (
          bounded_json-length py _ 100,
          bounded_json-length py _ 500,
          optional_bounded_json-AtMost py shortens _ 2000,
          bounded_json-length py _ 100,
        ))
        v)

  settle_component-Fits :
      (now : ℕ) (c : ResultComponent) → ComponentFits c → ComponentFits (settle_component py now c)
  unfolding settle_component
  settle_component-Fits now c h =
      elim c.status
        as (λ s. ComponentFits (elim s [
          | ComponentStatus.pending ↦
              component py ComponentStatus.unavailable none (some "本次 Run 未生成该组件。") now
          | _ ↦ c
        ])) [
          | ComponentStatus.pending ↦
              component-Fits py shortens ComponentStatus.unavailable none (some "本次 Run 未生成该组件。")
                now
          | _ ↦ h
        ]

  completed_with-Fits :
      (current : Option StoredOutput) (answer : Json) (listed : List Json) (now : ℕ)
      → StoredFits current
      → ResultFits (completed_with py current answer listed now)
  unfolding completed_with
  completed_with-Fits current answer listed now h =
      let sourced = add_answer_sources-Fits now listed _ (
        refit {s = record (current_result py current now) { assistant_answer = _ }}
          (current_result-Fits py shortens current now h) refl refl refl refl
          (current_result-Fits py shortens current now h).components) in
      let (w, g, r) = sourced.components in
      refit sourced refl refl refl refl (
        settle_component-Fits now _ w,
        settle_component-Fits now _ g,
        settle_component-Fits now _ r,
      )

  -- `complete_result` makes a result within the limits, whatever its answer holds, unless the
  -- sources of the answer are a number or a Boolean, for which it raises.
  pub complete_result-Fits :
      (current : Option StoredOutput) (answer : Json) (now : ℕ)
      → StoredFits current
      → ((answer_entries (answer_sources py answer) ≡ none)
          × (complete_result py current answer now ≡ none))
        ⊎ ((final : RunResult) × (complete_result py current answer now ≡ some final)
            × ResultFits final)
  unfolding complete_result
  complete_result-Fits current answer now h =
      elim (Option-cases (answer_entries (answer_sources py answer))) [
        | inl missing ↦ inl (missing, ground arith)
        | inr (listed, there) ↦ inr (
          completed_with py current answer listed now,
          ground arith,
          completed_with-Fits current answer listed now h,
        )
      ]
