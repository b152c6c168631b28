-- ===== src/Store/Writes/Log.antt =====
-- What writes never undo: the log.
use diy_agent.Prelude.{◌≡◌, sym, ◌∙◌, ap, List, [], ◌∷◌, ◌++◌}
use mathlib.Core.List.{append_assoc, append-nil}
use diy_agent.Models.{Db, RunEvent}
use diy_agent.Store.Writes.{Write, add, change, log, touch, Writes, here, next}

-- The log only grows at its end.
pub Writes-log :
    {db after : Db} → Writes db after → (more : List RunEvent) × (after.events ≡ db.events ++ more)
Writes-log {db} here = ([], sym (append-nil db.events))
Writes-log {db} (next {mid = mid} {after = after} ws w) = extend w (Writes-log ws)
  where
    extend :
        Write mid after
        → ((more : List RunEvent) × (mid.events ≡ db.events ++ more))
        → (more : List RunEvent) × (after.events ≡ db.events ++ more)
    extend (add new fresh ok pending er ee) (more, e) = (more, ee ∙ e)
    extend (change old row found s er ee) (more, e) = (more, ee ∙ e)
    extend (log event known number er ee) (more, e) = (
      more ++ event ∷ [],
      ee ∙ ap (λ es. es ++ event ∷ []) e ∙ append_assoc db.events more (event ∷ []),
    )
    extend (touch er ee) (more, e) = (more, ee ∙ e)
