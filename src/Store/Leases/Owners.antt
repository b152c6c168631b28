-- ===== src/Store/Leases/Owners.antt =====
-- Only the Worker with the lease writes a Run.
use diy_agent.Prelude.{ℕ, ◌≡◌, String, Json, Python, Option, some, Bool, false, arith}
use diy_agent.Schemas.{ContextUsage}
use diy_agent.Models.{Db, AgentRun, EventType, EventData}
use diy_agent.Store.Tables.{Result, ok, err, worker_lease_lost, find_run, owns}
use diy_agent.Store.Events.{append_event}
use diy_agent.Store.Progress.{record_context_snapshot, record_tool_snapshot}
use diy_agent.Store.Finish.{Failure, complete_run, fail_run}

-- What a Worker can ask of the store for its Run, each at its own times.
pub data Request : Type 0 where
  complete : (output : Json) (message_id now : ℕ) → Request
  fail : (failure : Failure) (now : ℕ) → Request
  context : (usage : ContextUsage) (now checked_at : ℕ) → Request
  tool :
      (name : String) (snapshot : Option Json) (succeeded : Bool) (payload : EventData)
      (now checked_at : ℕ)
      → Request
  event : (type : EventType) (payload : EventData) (now : ℕ) → Request

-- When the request's first look at the clock takes place.
abbrev pub asked_at : Request → ℕ
asked_at (complete output message_id now) = now
asked_at (fail failure now) = now
asked_at (context usage now checked_at) = now
asked_at (tool name snapshot succeeded payload now checked_at) = now
asked_at (event type payload now) = now

-- The tables that a request leaves.
abbrev pub tables : Result (Bool × Db) → Result Db
tables (ok (answer, db)) = ok db
tables (err e) = err e

-- The request of the Worker `w` for the Run `k`.
pub serve : Python → Db → ℕ → ℕ → Request → Result Db
serve py db k w (complete output message_id now) =
    tables (complete_run py db k w output message_id now)
serve py db k w (fail failure now) = tables (fail_run py db k w failure now)
serve py db k w (context usage now checked_at) =
    record_context_snapshot py db k w usage now checked_at
serve py db k w (tool name snapshot succeeded payload now checked_at) =
    record_tool_snapshot py db k w name snapshot succeeded payload now checked_at
serve py db k w (event type payload now) = append_event db k type payload (some w) now

module _ (py : Python) where
  -- A Worker that does not hold the lease of a Run, because it never had it, because it ran out,
  -- or because the Run ended, gets `WorkerLeaseLost` for whatever it asks; nothing is written.
  pub serve_needs_lease :
      (db : Db) (k w : ℕ) (run : AgentRun) (request : Request)
      → find_run k db.runs ≡ some run
      → owns run w (asked_at request) ≡ false
      → serve py db k w request ≡ err worker_lease_lost
  unfolding serve complete_run fail_run record_context_snapshot record_tool_snapshot append_event
  serve_needs_lease db k w run (complete o m n) found lost = ground arith
  serve_needs_lease db k w run (fail f n) found lost = ground arith
  serve_needs_lease db k w run (context u n c) found lost = ground arith
  serve_needs_lease db k w run (tool name s b p n c) found lost = ground arith
  serve_needs_lease db k w run (event t p n) found lost = ground arith
