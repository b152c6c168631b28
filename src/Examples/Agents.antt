-- ===== src/Examples/Agents.antt =====
-- Agents that call models and tools under their handler.
use diy_agent.Prelude.{
  ◌≡◌, ◌≤◌, refl, none, some, true, String, List, [], ◌∷◌, All, Json, Fields, str, field, end,
  has_key, lookup_field, Option, obj,
}
use diy_agent.Models.{Db}
use diy_agent.Store.History.{start, then_do, renew}
use diy_agent.Store.Claim.{renew_lease}
use diy_agent.Callbacks.Outputs.{ToolOutput, tool_result_object, build_tool_snapshot, pick}
use diy_agent.Callbacks.Handlers.{CallKind, Callback, Times, no_progress}
use diy_agent.Callbacks.Agent.{Call, Moment, passed}
use diy_agent.Callbacks.Snapshots.{has_text, visible_keys, snapshot-shows}
use diy_agent.Callbacks.Limits.{starts, passed_bounded}
use diy_agent.Callbacks.Cancellation.{looks_back, passed-IsRequested}
use diy_agent.Callbacks.Transactions.{WorldIsTransactional}
use diy_agent.Examples.Samples.{plain, working, stopping, db_with, stopping-IsValid}

-- `json.loads` on texts that are no JSON.
abbrev no_json : String → Option Json
no_json text = none

abbrev handler : Callback
handler = record { agent_run_id = 5; worker_id = 11; max_llm_calls = 2; max_tool_calls = 1 }

abbrev noon : Times
noon = record { first_at = 50; second_at = 51; third_at = 52 }

abbrev quiet : Db → Db
quiet db = db

abbrev heartbeat : Db → Db
heartbeat db = (renew_lease db 5 11 100 49).1

-- Two calls of a model, with a renewal of the lease before the second.
abbrev two_calls : List Moment
two_calls =
    record { world = quiet; call = Call.model_start 1; times = noon }
    ∷ record { world = heartbeat; call = Call.model_end 1; times = noon }
    ∷ record { world = quiet; call = Call.model_start 2; times = noon }
    ∷ []

two_calls-WorldIsTransactional : All (WorldIsTransactional plain) two_calls
two_calls-WorldIsTransactional =
    ((λ db. start), ((λ db. then_do start (renew 5 11 100 49 refl)), ((λ db. start), tt)))

passed_bounded_example :
    starts CallKind.llm (passed plain no_json handler two_calls no_progress (db_with working)) ≤ 2
passed_bounded_example =
    passed_bounded plain no_json handler two_calls (db_with working) CallKind.llm

passed-IsRequested_example :
    All
      (λ call. looks_back call ≡ true)
      (passed plain no_json handler two_calls no_progress (db_with stopping))
passed-IsRequested_example =
    passed-IsRequested plain no_json handler two_calls no_progress (db_with stopping) stopping
      stopping-IsValid two_calls-WorldIsTransactional refl refl

-- What a tool says that could not find the city.
abbrev sorry_fields : Fields
sorry_fields =
    field "status" (str "error") (field "trace" (str "x") (field "message" (str "no") end))

abbrev shown_fields : Fields
shown_fields = field "status" (str "error") (field "message" (str "no") end)

shown :
    build_tool_snapshot no_json "plan_wikivoyage_trip" (ToolOutput.plain (obj sorry_fields))
    ≡ some (obj shown_fields)
unfolding build_tool_snapshot pick tool_result_object
shown = refl

snapshot-shows_example :
    (result : Fields) × (tool_result_object no_json (ToolOutput.plain (obj sorry_fields))
      ≡ some result)
    × (has_text "message" (visible_keys "plan_wikivoyage_trip" result) ≡ true)
    × (has_key "message" result ≡ true)
    × (lookup_field "message" shown_fields ≡ lookup_field "message" result)
snapshot-shows_example =
    snapshot-shows no_json "plan_wikivoyage_trip" (ToolOutput.plain (obj sorry_fields)) shown_fields
      "message" shown refl
