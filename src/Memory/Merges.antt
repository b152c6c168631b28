-- ===== src/Memory/Merges.antt =====
-- app/memory.py: how an extraction changes a row.
use diy_agent.Prelude.{ℕ, ◌≡◌, ◌≤◌, ◌⊎◌, true, false}
use diy_agent.Memory.Rows.{TravelMemory, is_deleted, is_confirmed}

-- A change of a live row of a user that keeps what it knows.
pub record Merges (user_id : ℕ) (old changed : TravelMemory) : Type 0 where
  pub owner : old.user_id ≡ user_id
  pub alive : is_deleted old.status ≡ false
  pub still_alive : is_deleted changed.status ≡ false
  pub surer : old.confidence ≤ changed.confidence
  pub settled : (is_confirmed old.status ≡ false) ⊎ (is_confirmed changed.status ≡ true)
