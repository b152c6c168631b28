-- ===== src/Callbacks/Fenced.antt =====
-- app/callbacks.py: the handlers of a Worker that does not hold the lease.
use diy_agent.Prelude.{Bool, true, false}
use diy_agent.Callbacks.Handlers.{Progress}
use diy_agent.Callbacks.Agent.{Call}

-- All calls but the end of a model's, whose handler only closes a span.
abbrev pub is_guarded : Call → Bool
is_guarded (Call.model_end call_id) = false
is_guarded _ = true
