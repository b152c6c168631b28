-- ===== src/Store/Events.antt =====
-- app/store.py: the event log of a Run, which the SSE endpoint replays.
use diy_agent.Prelude.{
  ℕ, suc, max, Option, none, some, List, [], ◌∷◌, ◌++◌, Bool, ◌&&◌, ltb, leb, ◌==◌, keep_if,
  if◌then◌else◌,
}
use diy_agent.Models.{AgentRun, RunEvent, RunStatus, EventType, EventData, Db}
use diy_agent.Store.Tables.{Result, ok, err, run_not_found, worker_lease_lost, find_run, owns}

-- `select(func.max(RunEvent.sequence)).where(RunEvent.run_id == run_id)`, and 0 for no event
abbrev pub latest_sequence : ℕ → List RunEvent → ℕ
latest_sequence run_id [] = 0
latest_sequence run_id (event ∷ events) =
    let rest = latest_sequence run_id events in
    if event.run_id == run_id then max event.sequence rest else rest

-- Whether the caller may append: no owner is expected, or the expected one holds the lease.
abbrev pub may_append : AgentRun → Option ℕ → ℕ → Bool
may_append run none now = Bool.true
may_append run (some worker_id) now = owns run worker_id now

-- `append_event_in_session`, and `append_event`, its transaction
unfoldable pub append_event : Db → ℕ → EventType → EventData → Option ℕ → ℕ → Result Db
append_event db run_id event_type payload expected_worker_id now = elim (find_run run_id db.runs) [
  | none ↦ err run_not_found
  | some run ↦
      if may_append run expected_worker_id now
      then ok (record db {
        events =
            db.events
            ++ record {
              run_id = run_id;
              sequence = suc (latest_sequence run_id db.events);
              event_type = event_type;
              data_json = payload;
              created_at = now;
            }
              ∷ [];
      })
      else err worker_lease_lost
]

-- `ORDER BY sequence`
abbrev pub insert_event : RunEvent → List RunEvent → List RunEvent
insert_event event [] = event ∷ []
insert_event event (other ∷ rest) =
    let further = insert_event event rest in
    if leb event.sequence other.sequence then event ∷ other ∷ rest else other ∷ further

abbrev pub by_sequence : List RunEvent → List RunEvent
by_sequence [] = []
by_sequence (event ∷ events) = insert_event event (by_sequence events)

abbrev pub run_status : ℕ → Db → Option RunStatus
run_status run_id db = elim (find_run run_id db.runs) [ none ↦ none | some run ↦ some run.status ]

-- `read_events_after`: the later events in order, and the status of the Run.
unfoldable pub read_events_after : Db → ℕ → ℕ → List RunEvent × Option RunStatus
read_events_after db run_id after_sequence = (
  by_sequence
      (keep_if (λ event. event.run_id == run_id && ltb after_sequence event.sequence) db.events),
  run_status run_id db,
)
