-- ===== src/RunResults/Bounds.antt =====
-- The limits that app/schemas.py sets for a result, and which the operations of
-- app/run_results.py keep: what they store validates as `RunResultV1` again.
pub mod Stored
pub mod Tools
pub mod Ends
pub mod Failures
use diy_agent.Prelude.{
  ℕ, zero, suc, ◌+◌, ◌-◌, ◌≤◌, ◌≡◌, refl, String, Option, none, some, List, [], ◌∷◌, ◌++◌, Bool,
  true, false, not, Json, null, Python, take_text, text_length, take_text-length, as_text, text_eq,
  any_of, any_of, drop, length, keep_if, All, All-append, All-drop, length-append, length-drop,
  length-keep_if-le, arith, if◌then◌else◌, Bool-cases, inl, inr,
}
use diy_agent.Schemas.{
  ResultComponent, ResultComponents, ResultSource, ResultWarning, PlanningRequest, RunResult,
  StoredOutput, v1, legacy,
}
use diy_agent.RunResults.Texts.{
  bounded_text, bounded_json, text_or_none, optional_bounded_text, optional_bounded_json,
  last_items, max_entries, same_source, same_warning, replaced_sources, replace_source,
  added_warnings, add_warning,
}

-- `max_length` of an optional text
abbrev pub AtMost : ℕ → Option String → Type 0
AtMost n none = Unit
AtMost n (some text) = text_length text ≤ n

abbrev pub SourceFits : ResultSource → Type 0
SourceFits source =
    (text_length source.provider ≤ 100)
    × (text_length source.title ≤ 500)
    × AtMost 2000 source.url
    × (text_length source.purpose ≤ 100)

abbrev pub WarningFits : ResultWarning → Type 0
WarningFits warning = (text_length warning.code ≤ 100) × (text_length warning.message ≤ 2000)

abbrev pub ComponentFits : ResultComponent → Type 0
ComponentFits component = AtMost 100 component.error_code × AtMost 1000 component.message

abbrev pub ComponentsFit : ResultComponents → Type 0
ComponentsFit c = ComponentFits c.weather × ComponentFits c.guide × ComponentFits c.route

abbrev pub DaysFit : Option ℕ → Type 0
DaysFit none = Unit
DaysFit (some days) = (1 ≤ days) × (days ≤ 30)

-- The limits of `PlanningRequestSnapshot`.
pub record RequestFits (request : PlanningRequest) : Type 0 where
  pub message : text_length request.message ≤ 20000
  pub city : AtMost 80 request.city
  pub trip_days : DaysFit request.trip_days
  pub interests : length request.interests ≤ 20
  pub each_interest : All (λ i. (1 ≤ text_length i) × (text_length i ≤ 100)) request.interests
  pub budget : AtMost 300 request.budget
  pub preferences : AtMost 2000 request.additional_preferences

-- The limits of `RunResultV1`.
pub record ResultFits (result : RunResult) : Type 0 where
  pub revision : 1 ≤ result.plan_revision
  pub request : RequestFits result.request
  pub sources : length result.sources ≤ 100
  pub each_source : All SourceFits result.sources
  pub warnings : length result.warnings ≤ 100
  pub each_warning : All WarningFits result.warnings
  pub components : ComponentsFit result.components

-- A stored dictionary that counts as a result is within the limits.
abbrev pub StoredFits : Option StoredOutput → Type 0
StoredFits (some (v1 result)) = ResultFits result
StoredFits _ = Unit

-- `str.strip` returns a part of the text.
abbrev pub StripShortens : Python → Type 0
StripShortens py = (text : String) → text_length (py.strip text) ≤ text_length text

pub bounded_json-length : (py : Python) (v : Json) (n : ℕ) → text_length (bounded_json py v n) ≤ n
unfolding bounded_json
bounded_json-length py null n = take_text-length n ""
bounded_json-length py (Json.bool b) n = take_text-length n _
bounded_json-length py (Json.num m) n = take_text-length n _
bounded_json-length py (Json.str s) n = take_text-length n _
bounded_json-length py (Json.arr xs) n = take_text-length n _
bounded_json-length py (Json.obj fs) n = take_text-length n _

text_or_none-AtMost : (n : ℕ) (s : String) → text_length s ≤ n → AtMost n (text_or_none s)
text_or_none-AtMost n s h = ground arith

module _ (py : Python) (shortens : StripShortens py) where
  pub optional_bounded_text-AtMost :
      (text : Option String) (n : ℕ) → AtMost n (optional_bounded_text py text n)
  unfolding optional_bounded_text
  optional_bounded_text-AtMost none n =
      text_or_none-AtMost n _ (omega (arith, shortens (take_text n ""), take_text-length n ""))
  optional_bounded_text-AtMost (some s) n =
      text_or_none-AtMost n _ (omega (arith, shortens (take_text n s), take_text-length n s))

  pub optional_bounded_json-AtMost : (v : Json) (n : ℕ) → AtMost n (optional_bounded_json py v n)
  unfolding optional_bounded_json
  optional_bounded_json-AtMost v n =
      text_or_none-AtMost n _
        (omega (arith, shortens (bounded_json py v n), bounded_json-length py v n))

last_items-length : {A : Type 0} (n : ℕ) (xs : List A) → length (last_items n xs) ≤ n
last_items-length n xs = omega (arith, length-drop (length xs - n) xs)

keep_if-All :
    {A : Type 0} (P : A → Type 0) (test : A → Bool) (xs : List A)
    → All P xs
    → All P (keep_if test xs)
keep_if-All P test [] h = tt
keep_if-All P test (x ∷ xs) h = ground (arith, keep_if-All P test xs)

module _ (py : Python) where
  -- A new source takes the place of those with its key, and of the oldest where the list is full.
  pub replace_source-Fits :
      (result : RunResult) (source : ResultSource)
      → ResultFits result
      → SourceFits source
      → ResultFits (replace_source py result source)
  unfolding replace_source replaced_sources
  replace_source-Fits result source v h =
      let kept = keep_if (λ item. not (same_source py item source)) result.sources in
      record {
        revision = v.revision;
        request = v.request;
        sources = last_items-length 100 (kept ++ source ∷ []);
        each_source = All-drop SourceFits _ (kept ++ source ∷ []) (
            All-append SourceFits kept (source ∷ [])
              (keep_if-All SourceFits _ result.sources v.each_source) (h, tt));
        warnings = v.warnings;
        each_warning = v.each_warning;
        components = v.components;
      }

pub add_warning-Fits :
    (result : RunResult) (warning : ResultWarning)
    → ResultFits result
    → WarningFits warning
    → ResultFits (add_warning result warning)
unfolding add_warning added_warnings
add_warning-Fits result warning v h =
    elim (Bool-cases (any_of (λ item. same_warning item warning) result.warnings)) [
      | inl there ↦ rw there v
      | inr fresh ↦ rw fresh (record {
        revision = v.revision;
        request = v.request;
        sources = v.sources;
        each_source = v.each_source;
        warnings = last_items-length 100 (result.warnings ++ warning ∷ []);
        each_warning =
            All-drop WarningFits _ (result.warnings ++ warning ∷ [])
              (All-append WarningFits result.warnings (warning ∷ []) v.each_warning (h, tt));
        components = v.components;
      })
    ]

-- The same lists and request, with other components.
pub refit :
    {r s : RunResult}
    → ResultFits r
    → s.plan_revision ≡ r.plan_revision
    → s.request ≡ r.request
    → s.sources ≡ r.sources
    → s.warnings ≡ r.warnings
    → ComponentsFit s.components
    → ResultFits s
refit v revision request sources warnings components = record {
  revision = rw revision v.revision;
  request = rw request v.request;
  sources = rw sources v.sources;
  each_source = rw sources v.each_source;
  warnings = rw warnings v.warnings;
  each_warning = rw warnings v.each_warning;
  components = components;
}
