-- ===== src/Memory/Backend.antt =====
-- app/memory.py: `MemoryStoreBackend` and the values that go there. LangGraph's Store behind it is a
-- type of states; a call gives nothing where it raises, and then has changed nothing.
use diy_agent.Prelude.{
  ℕ, ◌≡◌, ◌⊎◌, not, ◌==◌, ◌&&◌, String, Option, none, some, List, [], ◌∷◌, Bool, keep_if, All,
}
use diy_agent.Memory.Rows.{MemoryStatus, MemoryType, TravelMemory}

-- `datetime.isoformat` of the times that the database gives, and `datetime.fromisoformat`, which
-- gives nothing where it raises; a time without a zone is read as the clock reads it.
pub record IsoFormat : Type 0 where
  pub print : ℕ → String
  pub read : String → Option ℕ

-- `_store_value`
pub record StoreValue : Type 0 where
  pub id : ℕ
  pub memory_type : MemoryType
  pub content : String
  pub confidence : ℕ
  pub status : MemoryStatus
  pub source_message_id : Option ℕ
  pub source_run_id : Option ℕ
  pub expires_at : Option String
  pub updated_at : String

abbrev pub print_time : IsoFormat → Option ℕ → Option String
print_time iso none = none
print_time iso (some time) = some (iso.print time)

unfoldable pub store_value : IsoFormat → TravelMemory → StoreValue
store_value iso memory = record {
  id = memory.id;
  memory_type = memory.memory_type;
  content = memory.content;
  confidence = memory.confidence;
  status = memory.status;
  source_message_id = memory.source_message_id;
  source_run_id = memory.source_run_id;
  expires_at = print_time iso memory.expires_at;
  updated_at = iso.print memory.updated_at;
}

-- The operations of `MemoryStoreBackend`: `put`, `delete` and `search`.
pub record MemoryStoreBackend (S : Type 0) : Type 0 where
  pub put : ℕ → ℕ → StoreValue → S → Option S
  pub delete : ℕ → ℕ → S → Option S
  pub search : ℕ → MemoryStatus → ℕ → S → Option (List StoreValue)

-- What a value is put under: the user of the namespace, and the key.
pub record Entry : Type 0 where
  pub user_id : ℕ
  pub key : ℕ
  pub value : StoreValue

abbrev pub is_at : ℕ → ℕ → Entry → Bool
is_at user_id key entry = entry.user_id == user_id && entry.key == key

abbrev pub IsIn : Entry → List Entry → Type 0
IsIn entry [] = ⊥
IsIn entry (other ∷ rest) = (entry ≡ other) ⊎ IsIn entry rest

abbrev pub without_entry : ℕ → ℕ → List Entry → List Entry
without_entry user_id key entries = keep_if (λ entry. not (is_at user_id key entry)) entries

-- What the Store documents: `contents` is what it holds, a `put` replaces the value of its key, a
-- `delete` takes it away, and a search gives values of the namespace that pass the filter.
pub record BackendLaws (S : Type 0) (backend : MemoryStoreBackend S) : Type 0 where
  pub contents : S → List Entry
  pub put-contents :
      {s after : S} (user_id key : ℕ) (value : StoreValue)
      → backend.put user_id key value s ≡ some after
      → contents after
        ≡ record { user_id = user_id; key = key; value = value }
          ∷ without_entry user_id key (contents s)
  pub delete-contents :
      {s after : S} (user_id key : ℕ)
      → backend.delete user_id key s ≡ some after
      → contents after ≡ without_entry user_id key (contents s)
  pub search-contents :
      {s : S} (user_id : ℕ) (status : MemoryStatus) (limit : ℕ) {found : List StoreValue}
      → backend.search user_id status limit s ≡ some found
      → All
          (λ value.
            (value.status ≡ status)
            × ((key : ℕ) × IsIn
                  (record { user_id = user_id; key = key; value = value })
                  (contents s)))
          found
