-- ===== src/RunResults/Bounds/Stored.antt =====
-- app/run_results.py: what is read from a stored output is within the limits.
use diy_agent.Prelude.{
  ℕ, ◌≤◌, String, Option, none, some, List, [], ◌∷◌, Bool, true, false, Json, obj, end, Python,
  take_text-length, get, or_else, elements, is_obj, take, length, length-take, All, Bool-cases, inl,
  inr, if◌then◌else◌, arith,
}
use diy_agent.Schemas.{RunResult, StoredOutput, v1, legacy, empty_request}
use diy_agent.Models.{RunStatus}
use diy_agent.RunResults.Coerce.{
  empty_components, legacy_source, legacy_sources_of, legacy_sources, legacy_warnings, has_text,
  upgrade_legacy, coerce_run_result, current_result,
}
use diy_agent.RunResults.Bounds.{
  SourceFits, WarningFits, RequestFits, ResultFits, StoredFits, StripShortens, bounded_json-length,
  optional_bounded_json-AtMost,
}

-- What an earlier value of `output_json` says of the result that is read from it.
length-legacy_sources_of :
    (py : Python) (now : ℕ) (items : List Json)
    → length (legacy_sources_of py now items) ≤ length items
unfolding legacy_sources_of
length-legacy_sources_of py now [] = omega arith
length-legacy_sources_of py now (item ∷ rest) = ground (arith, length-legacy_sources_of py now rest)

legacy_warnings-short : (code message : Option String) → length (legacy_warnings code message) ≤ 100
unfolding legacy_warnings
legacy_warnings-short code message = ground arith

legacy_warnings-Fits :
    (code message : Option String) → All WarningFits (legacy_warnings code message)
unfolding legacy_warnings
legacy_warnings-Fits code message = elim (Bool-cases (has_text message)) [
  | inl there ↦ rw there ((take_text-length 100 _, take_text-length 2000 _), tt)
  | inr lacks ↦ rw lacks tt
]

pub if-Fits :
    (test : Bool) {a b : RunResult}
    → ResultFits a
    → ResultFits b
    → ResultFits (if test then a else b)
if-Fits true ha hb = ha
if-Fits false ha hb = hb

pub empty_request-Fits : RequestFits empty_request
empty_request-Fits = record {
  message = omega arith;
  city = tt;
  trip_days = tt;
  interests = omega arith;
  each_interest = tt;
  budget = tt;
  preferences = tt;
}

module _ (py : Python) (shortens : StripShortens py) where
  legacy_sources_of-Fits :
      (now : ℕ) (items : List Json) → All SourceFits (legacy_sources_of py now items)
  unfolding legacy_sources_of legacy_source
  legacy_sources_of-Fits now [] = tt
  legacy_sources_of-Fits now (item ∷ rest) = elim (Bool-cases (is_obj item)) [
    | inl there ↦ rw there (
      (
        omega arith,
        bounded_json-length py _ 500,
        optional_bounded_json-AtMost py shortens _ 2000,
        omega arith,
      ),
      legacy_sources_of-Fits now rest,
    )
    | inr lacks ↦ rw lacks (legacy_sources_of-Fits now rest)
  ]

  upgrade_legacy-Fits :
      (value : Json) (status : Option RunStatus) (now : ℕ) (code message : Option String)
      → ResultFits (upgrade_legacy py value status now code message)
  unfolding upgrade_legacy legacy_sources legacy_warnings empty_components
  upgrade_legacy-Fits value status now code message =
      let sources = or_else py (get "sources" value) (get "reference" value) in
      let listed = take 100 (elements sources) in
      record {
        revision = omega arith;
        request = empty_request-Fits;
        sources =
            omega
              (arith, length-legacy_sources_of py now listed, length-take 100 (elements sources));
        each_source = legacy_sources_of-Fits now listed;
        warnings = legacy_warnings-short code message;
        each_warning = legacy_warnings-Fits code message;
        components = ((tt, tt), (tt, tt), (tt, tt));
      }

  -- Whatever is stored, what is read from it is within the limits.
  pub current_result-Fits :
      (current : Option StoredOutput) (now : ℕ)
      → StoredFits current
      → ResultFits (current_result py current now)
  unfolding current_result coerce_run_result
  current_result-Fits none now h = upgrade_legacy-Fits (obj end) none now none none
  current_result-Fits (some (v1 result)) now h = h
  current_result-Fits (some (legacy value)) now h = upgrade_legacy-Fits value none now none none
