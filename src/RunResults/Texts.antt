-- ===== src/RunResults/Texts.antt =====
-- app/run_results.py: the text bounds, the source list and the warning list of a result.
use diy_agent.Prelude.{
  ℕ, ◌-◌, String, Option, none, some, List, [], ◌∷◌, ◌++◌, Bool, not, ◌&&◌, Json, null, Python,
  as_text, text_eq, take_text, drop, length, keep_if, any_of, or_default, if◌then◌else◌,
}
use diy_agent.Schemas.{ResultSource, ResultWarning, Scope, RunResult}

-- `_bounded_text` of a text
abbrev pub bounded_text : String → ℕ → String
bounded_text text max_length = take_text max_length text

-- `_bounded_text` of a JSON value
unfoldable pub bounded_json : Python → Json → ℕ → String
bounded_json py null max_length = take_text max_length ""
bounded_json py value max_length = take_text max_length (as_text py value)

-- `text or None`
abbrev pub text_or_none : String → Option String
text_or_none text = if text_eq text "" then none else some text

-- `_optional_bounded_text` of an optional text
unfoldable pub optional_bounded_text : Python → Option String → ℕ → Option String
optional_bounded_text py none max_length = text_or_none (py.strip (take_text max_length ""))
optional_bounded_text py (some text) max_length =
    text_or_none (py.strip (take_text max_length text))

-- `_optional_bounded_text` of a JSON value
unfoldable pub optional_bounded_json : Python → Json → ℕ → Option String
unfolding bounded_json
optional_bounded_json py value max_length =
    text_or_none (py.strip (bounded_json py value max_length))

-- `xs[-n:]`, for `n` above 0
abbrev pub last_items {ℓ} : {A : Type ℓ} → ℕ → List A → List A
last_items n xs = drop (length xs - n) xs

abbrev pub scope_eq : Scope → Scope → Bool
scope_eq Scope.weather Scope.weather = Bool.true
scope_eq Scope.guide Scope.guide = Bool.true
scope_eq Scope.route Scope.route = Bool.true
scope_eq Scope.agent Scope.agent = Bool.true
scope_eq _ _ = Bool.false

-- Whether two sources have the same key `(provider.lower(), url or "", purpose)`.
unfoldable pub same_source : Python → ResultSource → ResultSource → Bool
same_source py a b =
    text_eq (py.lower a.provider) (py.lower b.provider)
    && text_eq (or_default a.url "") (or_default b.url "")
    && text_eq a.purpose b.purpose

-- Whether two warnings have the same key `(code, message, scope)`.
unfoldable pub same_warning : ResultWarning → ResultWarning → Bool
same_warning a b = text_eq a.code b.code && text_eq a.message b.message && scope_eq a.scope b.scope

abbrev pub max_entries : ℕ
max_entries = 100

-- The list that `_replace_source` leaves.
unfoldable pub replaced_sources : Python → List ResultSource → ResultSource → List ResultSource
replaced_sources py sources source =
    last_items max_entries
      (keep_if (λ item. not (same_source py item source)) sources ++ source ∷ [])

-- `_replace_source`
unfoldable pub replace_source : Python → RunResult → ResultSource → RunResult
unfolding replaced_sources
replace_source py result source = record result {
  sources = replaced_sources py result.sources source;
}

-- The list that `_add_warning` leaves.
unfoldable pub added_warnings : List ResultWarning → ResultWarning → List ResultWarning
added_warnings warnings warning =
    if any_of (λ item. same_warning item warning) warnings
    then warnings
    else last_items max_entries (warnings ++ warning ∷ [])

-- `_add_warning`
unfoldable pub add_warning : RunResult → ResultWarning → RunResult
unfolding added_warnings
add_warning result warning = record result { warnings = added_warnings result.warnings warning }
