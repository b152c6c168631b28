-- ===== src/Callbacks/Outputs.antt =====
-- app/callbacks.py: what is read from the output of a tool. `loads` stands for `json.loads`, which
-- gives nothing where it raises.
use diy_agent.Prelude.{
  String, Option, none, some, List, [], ◌∷◌, Bool, Json, Fields, str, obj, end, field, Python,
  lookup_field, has_key, as_text, text_eq, if◌then◌else◌,
}
use diy_agent.RunResults.{weather_tool, guide_tool}

-- What a tool hands over: a value, a message with a content, or a Pydantic model, by its
-- `model_dump`.
pub data ToolOutput : Type 0 where
  plain : Json → ToolOutput
  message : Json → ToolOutput
  model : Json → ToolOutput

-- The value of a text that is JSON; nothing for any other text.
abbrev pub decoded : (String → Option Json) → Json → Option Json
decoded loads (str text) = loads text
decoded loads value = some value

-- `isinstance(value, dict) and str(value.get("status", "")).lower() == "error"`
abbrev pub reports_error : Python → Json → Bool
reports_error py (obj fs) =
    text_eq (py.lower (if has_key "status" fs then as_text py (lookup_field "status" fs) else ""))
      "error"
reports_error py _ = Bool.false

-- `tool_outcome`, in the negative: whether it is "error".
unfoldable pub outcome_is_error : Python → (String → Option Json) → ToolOutput → Bool
outcome_is_error py loads (model value) = Bool.false
outcome_is_error py loads (plain value) = elim (decoded loads value) [
  | none ↦ Bool.false
  | some result ↦ reports_error py result
]
outcome_is_error py loads (message value) = elim (decoded loads value) [
  | none ↦ Bool.false
  | some result ↦ reports_error py result
]

-- `value if isinstance(value, dict) else None`
abbrev pub fields_of : Json → Option Fields
fields_of (obj fs) = some fs
fields_of _ = none

-- `_tool_result_object`
unfoldable pub tool_result_object : (String → Option Json) → ToolOutput → Option Fields
tool_result_object loads (model value) = fields_of value
tool_result_object loads (plain value) = elim (decoded loads value) [
  | none ↦ none
  | some result ↦ fields_of result
]
tool_result_object loads (message value) = elim (decoded loads value) [
  | none ↦ none
  | some result ↦ fields_of result
]

-- `{key: result[key] for key in keys if key in result}`
unfoldable pub pick : List String → Fields → Fields
pick [] fs = end
pick (key ∷ keys) fs =
    let rest = pick keys fs in if has_key key fs then field key (lookup_field key fs) rest else rest

abbrev pub error_keys : List String
error_keys = "status" ∷ "error_code" ∷ "message" ∷ []

-- The entries of `allowed_fields`.
abbrev pub weather_keys : List String
weather_keys =
    "status" ∷ "query_city" ∷ "resolved_location" ∷ "trip_days" ∷ "best_window"
    ∷ "all_daily_weather" ∷ "top_windows" ∷ "skipped_dates" ∷ "source" ∷ "notice" ∷ []

abbrev pub guide_keys : List String
guide_keys =
    "status" ∷ "city" ∷ "trip_days" ∷ "map_profile" ∷ "itinerary" ∷ "source_pages" ∷ "attribution"
    ∷ "warnings" ∷ []

-- `allowed_fields.get(name)`
abbrev pub allowed_keys : String → Option (List String)
allowed_keys name =
    if text_eq name weather_tool
    then some weather_keys
    else if text_eq name guide_tool
    then some guide_keys
    else none

-- `value == text`, for a JSON value
abbrev pub is_text : Json → String → Bool
is_text (str s) text = text_eq s text
is_text _ text = Bool.false

-- The picked entries, where the tool is in the table.
unfoldable pub allowed_snapshot : Option (List String) → Fields → Option Json
allowed_snapshot none result = none
allowed_snapshot (some keys) result = some (obj (pick keys result))

-- The part of `build_tool_snapshot` for a dictionary.
unfoldable pub snapshot_of : String → Fields → Option Json
unfolding pick allowed_snapshot
snapshot_of name result =
    if is_text (lookup_field "status" result) "error"
    then some (obj (pick error_keys result))
    else allowed_snapshot (allowed_keys name) result

-- `build_tool_snapshot`
unfoldable pub build_tool_snapshot : (String → Option Json) → String → ToolOutput → Option Json
unfolding snapshot_of tool_result_object
build_tool_snapshot loads name output = elim (tool_result_object loads output) [
  | none ↦ none
  | some result ↦ snapshot_of name result
]
