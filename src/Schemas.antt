-- ===== src/Schemas.antt =====
-- app/schemas.py (the versioned Run result) and the event payloads of app/store.py.
use diy_agent.Prelude.{ℕ, String, Option, none, List, [], Bool, Json}

-- `ResultStatus`
pub data ResultStatus : Type 0 where
  complete partial failed : ResultStatus

-- `ComponentStatus`
pub data ComponentStatus : Type 0 where
  pending ready degraded unavailable : ComponentStatus

-- The literal of `ResultWarning.severity`.
pub data Severity : Type 0 where
  info warning error : Severity

-- The literal of `ResultWarning.scope`.
pub data Scope : Type 0 where
  weather guide route agent : Scope

-- `PlanningRequestSnapshot`
pub record PlanningRequest : Type 0 where
  pub message : String
  pub city : Option String
  pub trip_days : Option ℕ
  pub interests : List String
  pub budget : Option String
  pub additional_preferences : Option String

-- `ResultComponent`
pub record ResultComponent : Type 0 where
  pub status : ComponentStatus
  pub error_code : Option String
  pub message : Option String
  pub updated_at : Option ℕ
  pub inherited_from_run_id : Option ℕ

-- `ResultComponents`
pub record ResultComponents : Type 0 where
  pub weather : ResultComponent
  pub guide : ResultComponent
  pub route : ResultComponent

-- `ResultSource`
pub record ResultSource : Type 0 where
  pub provider : String
  pub title : String
  pub url : Option String
  pub purpose : String
  pub fetched_at : ℕ

-- `ResultWarning`
pub record ResultWarning : Type 0 where
  pub code : String
  pub message : String
  pub severity : Severity
  pub scope : Scope

-- `ContextUsage` of app/context.py and `ContextUsageSnapshot`, which have the same fields.
pub record ContextUsage : Type 0 where
  pub max_input_tokens : ℕ
  pub estimated_input_tokens : ℕ
  pub current_message_tokens : ℕ
  pub history_tokens : ℕ
  pub summary_tokens : ℕ
  pub long_term_memory_tokens : ℕ
  pub system_reserved_tokens : ℕ
  pub tool_reserved_tokens : ℕ
  pub output_reserved_tokens : ℕ
  pub history_messages_used : ℕ
  pub long_term_memories_recalled : ℕ
  pub messages_summarized : ℕ
  pub messages_truncated : ℕ
  pub summary_present : Bool
  pub summary_updated : Bool
  pub over_budget : Bool

-- `RunResultV1`; times are numbers, and `schema_version` is the constructor of `StoredOutput`.
pub record RunResult : Type 0 where
  pub result_status : ResultStatus
  pub generated_at : ℕ
  pub plan_revision : ℕ
  pub supersedes_run_id : Option ℕ
  pub request : PlanningRequest
  pub assistant_answer : String
  pub weather_window : Option Json
  pub itinerary : Option Json
  pub sources : List ResultSource
  pub warnings : List ResultWarning
  pub components : ResultComponents
  pub context_usage : Option ContextUsage

-- A dictionary in the column `output_json`: one that validates as `RunResultV1`, or any other.
pub data StoredOutput : Type 0 where
  v1 : RunResult → StoredOutput
  legacy : Json → StoredOutput

abbrev pub empty_request : PlanningRequest
empty_request = record {
  message = "";
  city = none;
  trip_days = none;
  interests = [];
  budget = none;
  additional_preferences = none;
}
