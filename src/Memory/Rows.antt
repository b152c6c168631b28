-- ===== src/Memory/Rows.antt =====
-- app/models.py: `TravelMemory`, and the queries for its rows. `confidence` is in hundredths.
use diy_agent.Prelude.{
  ℕ, String, Option, none, some, List, [], ◌∷◌, ◌++◌, Bool, true, false, not, ◌&&◌, ◌||◌, ◌==◌,
  Fields, text_eq, any_of, first, map, if◌then◌else◌,
}

pub data MemoryStatus : Type 0 where
  candidate confirmed deleted : MemoryStatus

pub data MemoryType : Type 0 where
  profile preference episodic rejected : MemoryType

abbrev pub is_deleted : MemoryStatus → Bool
is_deleted MemoryStatus.deleted = true
is_deleted _ = false

abbrev pub is_confirmed : MemoryStatus → Bool
is_confirmed MemoryStatus.confirmed = true
is_confirmed _ = false

abbrev pub is_candidate : MemoryStatus → Bool
is_candidate MemoryStatus.candidate = true
is_candidate _ = false

pub record TravelMemory : Type 0 where
  pub id : ℕ
  pub user_id : ℕ
  pub memory_type : MemoryType
  pub content : String
  pub normalized_key : String
  pub confidence : ℕ
  pub status : MemoryStatus
  pub source_message_id : Option ℕ
  pub source_run_id : Option ℕ
  pub metadata_json : Fields
  pub expires_at : Option ℕ
  pub created_at : ℕ
  pub updated_at : ℕ

-- The row with an identifier.
abbrev pub find_memory : ℕ → List TravelMemory → Option TravelMemory
find_memory memory_id rows = first (λ row. row.id == memory_id) rows

-- Whether a row is the one with this user and this key.
abbrev pub has_user_key : ℕ → String → TravelMemory → Bool
has_user_key user_id key row = row.user_id == user_id && text_eq row.normalized_key key

-- The query of `extract_from_run`.
abbrev pub find_by_key : ℕ → String → List TravelMemory → Option TravelMemory
find_by_key user_id key rows = first (has_user_key user_id key) rows

-- The query of `update` and of `delete`.
abbrev pub find_live : ℕ → ℕ → List TravelMemory → Option TravelMemory
find_live user_id memory_id rows =
    first (λ row. row.id == memory_id && row.user_id == user_id && not (is_deleted row.status)) rows

-- A row that the primary key or `uq_travel_memories_user_key` keeps out.
abbrev pub clashes : TravelMemory → List TravelMemory → Bool
clashes new rows =
    any_of (λ row. row.id == new.id || has_user_key new.user_id new.normalized_key row) rows

-- `session.add` and the flush: nothing where the database raises an `IntegrityError`.
unfoldable pub insert_memory : TravelMemory → List TravelMemory → Option (List TravelMemory)
insert_memory new rows = if clashes new rows then none else some (rows ++ new ∷ [])

-- The flush of a changed row.
abbrev pub put_memory : TravelMemory → List TravelMemory → List TravelMemory
put_memory changed rows = map (λ row. if row.id == changed.id then changed else row) rows
