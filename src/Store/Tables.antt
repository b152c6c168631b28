-- ===== src/Store/Tables.antt =====
-- app/store.py: transactions, rows, and the conditions on rows that the transactions share.
-- A transaction returns the new tables, or raises and leaves them as they were (the rollback of
-- `session_factory.begin`).
use diy_agent.Prelude.{
  ℕ, Option, none, some, List, [], ◌∷◌, Bool, true, false, ◌&&◌, ltb, leb, ◌==◌, if◌then◌else◌,
  holds, first,
}
use diy_agent.Models.{AgentRun, AgentSession, Message, Db, is_running}

-- `LookupError` and `WorkerLeaseLost`
pub data StoreError : Type 0 where
  run_not_found worker_lease_lost bad_answer : StoreError

pub data Result {ℓ} (A : Type ℓ) : Type ℓ where
  ok : A → Result A
  err : StoreError → Result A

infixl 5 ◌>>=◌
abbrev pub ◌>>=◌ {ℓ κ} : {A : Type ℓ} {B : Type κ} → Result A → (A → Result B) → Result B
ok a >>= f = f a
err e >>= f = err e

-- What a transaction returns, once its tables are written.
abbrev pub answer_with {ℓ} : {A : Type ℓ} → A → Result Db → Result (A × Db)
answer_with answer (ok db) = ok (answer, db)
answer_with answer (err e) = err e

-- `session.get(AgentRun, run_id)`
abbrev pub find_run : ℕ → List AgentRun → Option AgentRun
find_run run_id [] = none
find_run run_id (run ∷ runs) = if run.id == run_id then some run else find_run run_id runs

-- The flush of a changed row.
abbrev pub put_run : AgentRun → List AgentRun → List AgentRun
put_run row [] = []
put_run row (run ∷ runs) =
    let rest = put_run row runs in if run.id == row.id then row ∷ runs else run ∷ rest

abbrev pub find_session : ℕ → List AgentSession → Option AgentSession
find_session session_id = first (λ conversation. conversation.id == session_id)

abbrev pub find_message : ℕ → List Message → Option Message
find_message message_id = first (λ message. message.id == message_id)

-- `conversation.updated_at = utc_now()`, where the session is there.
abbrev pub touch_session : ℕ → ℕ → List AgentSession → List AgentSession
touch_session session_id now [] = []
touch_session session_id now (conversation ∷ rest) =
    let others = touch_session session_id now rest in
    if conversation.id == session_id
    then record conversation { updated_at = now } ∷ rest
    else conversation ∷ others

abbrev pub save_run : Db → AgentRun → Db
save_run db row = record db { runs = put_run row db.runs }

-- `_lease_is_active`
abbrev pub lease_is_active : Option ℕ → ℕ → Bool
lease_is_active none now = false
lease_is_active (some expires_at) now = ltb now expires_at

-- The guard of every write by a Worker, in the positive: it is the Run's Worker, the Run is
-- running, and the lease has not run out.
abbrev pub owns : AgentRun → ℕ → ℕ → Bool
owns run worker_id now =
    holds run.worker_id worker_id
    && is_running run.status
    && lease_is_active run.lease_expires_at now

-- `column IS NOT NULL AND column <= now`
abbrev pub due : Option ℕ → ℕ → Bool
due none now = false
due (some time) now = leb time now

-- `next_retry_at IS NULL OR next_retry_at <= now`
abbrev pub retry_due : Option ℕ → ℕ → Bool
retry_due none now = true
retry_due (some time) now = leb time now

-- `_locked_run`, then the guard.
abbrev pub owned_run : Db → ℕ → ℕ → ℕ → Result AgentRun
owned_run db run_id worker_id now = elim (find_run run_id db.runs) [
  | none ↦ err run_not_found
  | some run ↦ if owns run worker_id now then ok run else err worker_lease_lost
]
