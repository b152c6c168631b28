-- ===== src/Memory/Service.antt =====
-- app/memory.py: `MemoryService`, but for `recall`. A method works on the table and on the Store;
-- it gives nothing where the database raises, which leaves both as they were.
mod Changes
mod Listing
unfoldable pub use Changes.*
unfoldable pub use Listing.*
use diy_agent.Prelude.{
  ℕ, ◌-◌, ◌*◌, max, String, Option, none, some, List, [], ◌∷◌, ◌++◌, Bool, true, false, ◌&&◌, ◌||◌,
  ltb, ◌==◌, Json, Fields, bool, str, field, end, keep_if, take, drop, length, text_append, text_eq,
  or_default, if◌then◌else◌,
}
use diy_agent.Memory.Texts.{TextRuntime, clean_content}
use diy_agent.Memory.Rows.{
  MemoryStatus, MemoryType, TravelMemory, is_deleted, is_confirmed, is_candidate, find_by_key,
  find_live, insert_memory, put_memory,
}
use diy_agent.Memory.Candidates.{MemoryCandidate, extract_memory_candidates}
use diy_agent.Memory.Backend.{IsoFormat, MemoryStoreBackend, store_value}

-- The table `travel_memories` and the Store.
pub record MemoryState (S : Type 0) : Type 0 where
  pub rows : List TravelMemory
  pub store : S

-- Where a method leaves the table and the Store: as they were, if it raises.
abbrev pub settled : {S A : Type 0} → MemoryState S → Option (A × MemoryState S) → MemoryState S
settled before none = before
settled before (some (answer, after)) = after

-- The tables of a transaction that goes on, with the memories that it collects.
abbrev pub Extracted : Type 0
Extracted = Option (List TravelMemory × List TravelMemory)

abbrev pub inserted : TravelMemory → List TravelMemory → Option (List TravelMemory) → Extracted
inserted new memories none = none
inserted new memories (some rows) = some (memories ++ new ∷ [], rows)

-- One round of the loop over the candidates; `new_id` is the identifier of a new row.
unfoldable pub extract_candidate :
    ℕ
    → ℕ
    → ℕ
    → (String → ℕ)
    → ℕ
    → MemoryCandidate
    → List TravelMemory
    → List TravelMemory
    → Extracted
unfolding insert_memory
extract_candidate user_id message_id run_id new_id now candidate memories rows =
    elim (find_by_key user_id candidate.normalized_key rows) [
      | none ↦
          let new =
            extracted_memory user_id message_id run_id (new_id candidate.normalized_key) now
              candidate in
          inserted new memories (insert_memory new rows)
      | some memory ↦
          if is_deleted memory.status
          then some (memories, rows)
          else let changed = merged_memory message_id run_id now candidate memory in
            some (memories ++ changed ∷ [], put_memory changed rows)
    ]

-- The loop over the candidates.
unfoldable pub extract_candidates :
    ℕ → ℕ → ℕ → (String → ℕ) → ℕ → List MemoryCandidate → Extracted → Extracted
unfolding extract_candidate
extract_candidates user_id message_id run_id new_id now [] so_far = so_far
extract_candidates user_id message_id run_id new_id now (candidate ∷ rest) none = none
extract_candidates user_id message_id run_id new_id now (candidate ∷ rest) (some (memories, rows)) =
    extract_candidates user_id message_id run_id new_id now rest
      (extract_candidate user_id message_id run_id new_id now candidate memories rows)

module _ {S : Type 0} (backend : MemoryStoreBackend S) (iso : IsoFormat) where
  -- `_sync`: an exception is only logged.
  unfoldable pub sync : TravelMemory → S → S
  unfolding store_value
  sync memory store =
      or_default
        (if is_deleted memory.status
          then backend.delete memory.user_id memory.id store
          else backend.put memory.user_id memory.id (store_value iso memory) store)
        store

  unfoldable pub sync_all : List TravelMemory → S → S
  sync_all [] store = store
  sync_all (memory ∷ rest) store = sync_all rest (sync memory store)

  -- What `create_manual` does after its insertion.
  abbrev pub after_insert :
      TravelMemory → S → Option (List TravelMemory) → Option (TravelMemory × MemoryState S)
  after_insert new store none = none
  after_insert new store (some rows) = some (new, record { rows = rows; store = sync new store })

  -- `create_manual`
  unfoldable pub create_manual :
      TextRuntime
      → ℕ
      → String
      → MemoryType
      → ℕ
      → String
      → ℕ
      → MemoryState S
      → Option (TravelMemory × MemoryState S)
  unfolding manual_memory insert_memory sync
  create_manual rt user_id content memory_type new_id hex now state =
      let new = manual_memory rt user_id content memory_type new_id hex now in
      after_insert new state.store (insert_memory new state.rows)

  -- What `extract_from_run` does after its transaction.
  abbrev pub after_extraction : S → Extracted → Option (List TravelMemory × MemoryState S)
  after_extraction store none = none
  after_extraction store (some (memories, rows)) =
      some (memories, record { rows = rows; store = sync_all memories store })

  -- `extract_from_run`
  unfoldable pub extract_from_run :
      TextRuntime
      → Bool
      → ℕ
      → ℕ
      → ℕ
      → String
      → Option Json
      → (String → ℕ)
      → ℕ
      → MemoryState S
      → Option (List TravelMemory × MemoryState S)
  unfolding extract_candidates sync_all extract_memory_candidates
  extract_from_run rt auto_extract user_id message_id run_id prompt planning_request new_id now
        state =
      if auto_extract
      then after_extraction state.store (
          extract_candidates user_id message_id run_id new_id now
            (extract_memory_candidates rt prompt planning_request) (some ([], state.rows)))
      else some ([], state)

  -- `update`
  unfoldable pub update :
      TextRuntime
      → ℕ
      → ℕ
      → Option String
      → Option MemoryStatus
      → ℕ
      → MemoryState S
      → Option TravelMemory × MemoryState S
  unfolding updated_memory sync
  update rt user_id memory_id content status now state =
      elim (find_live user_id memory_id state.rows) [
        | none ↦ (none, state)
        | some memory ↦
            let changed = updated_memory rt content status now memory in
            (
              some changed,
              record { rows = put_memory changed state.rows; store = sync changed state.store },
            )
      ]

  -- `delete`
  unfoldable pub delete : ℕ → ℕ → ℕ → MemoryState S → Bool × MemoryState S
  unfolding deleted_memory sync
  delete user_id memory_id now state = elim (find_live user_id memory_id state.rows) [
    | none ↦ (false, state)
    | some memory ↦
        let changed = deleted_memory now memory in
        (true, record { rows = put_memory changed state.rows; store = sync changed state.store })
  ]
