-- ===== src/Memory/Service/Changes.antt =====
-- app/memory.py: the rows that the methods of `MemoryService` write.
use diy_agent.Prelude.{
  ℕ, max, String, Option, none, some, true, Json, Fields, bool, str, field, end, text_append,
  text_eq, or_default, if◌then◌else◌,
}
use diy_agent.Memory.Texts.{TextRuntime, clean_content}
use diy_agent.Memory.Rows.{MemoryStatus, MemoryType, TravelMemory, is_confirmed}
use diy_agent.Memory.Candidates.{MemoryCandidate}

-- `metadata[key] = value`
abbrev pub set_field : String → Json → Fields → Fields
set_field key value end = field key value end
set_field key value (field k v fs) =
    if text_eq k key then field k value fs else field k v (set_field key value fs)

-- The row that `create_manual` adds; `hex` is the `hex` of its `uuid4`.
unfoldable pub manual_memory : TextRuntime → ℕ → String → MemoryType → ℕ → String → ℕ → TravelMemory
manual_memory rt user_id content memory_type new_id hex now = record {
  id = new_id;
  user_id = user_id;
  memory_type = memory_type;
  content = clean_content rt (str content);
  normalized_key = text_append "manual:" hex;
  confidence = 100;
  status = MemoryStatus.confirmed;
  source_message_id = none;
  source_run_id = none;
  metadata_json = field "extraction" (str "manual") end;
  expires_at = none;
  created_at = now;
  updated_at = now;
}

-- The row that `extract_from_run` adds for a new candidate.
unfoldable pub extracted_memory : ℕ → ℕ → ℕ → ℕ → ℕ → MemoryCandidate → TravelMemory
extracted_memory user_id message_id run_id new_id now candidate = record {
  id = new_id;
  user_id = user_id;
  memory_type = candidate.memory_type;
  content = candidate.content;
  normalized_key = candidate.normalized_key;
  confidence = candidate.confidence;
  status = candidate.status;
  source_message_id = some message_id;
  source_run_id = some run_id;
  metadata_json = candidate.metadata;
  expires_at = none;
  created_at = now;
  updated_at = now;
}

-- The row that it writes where there is one with the candidate's key.
unfoldable pub merged_memory : ℕ → ℕ → ℕ → MemoryCandidate → TravelMemory → TravelMemory
merged_memory message_id run_id now candidate memory = record memory {
  content = candidate.content;
  confidence = max memory.confidence candidate.confidence;
  status = if is_confirmed candidate.status then MemoryStatus.confirmed else memory.status;
  source_message_id = some message_id;
  source_run_id = some run_id;
  metadata_json = candidate.metadata;
  updated_at = now;
}

-- The row that `update` writes.
unfoldable pub updated_memory :
    TextRuntime → Option String → Option MemoryStatus → ℕ → TravelMemory → TravelMemory
updated_memory rt content status now memory =
    let edited : TravelMemory = elim content [
      | none ↦ memory
      | some text ↦ record memory {
        content = clean_content rt (str text);
        confidence = 100;
        metadata_json = set_field "edited_by_user" (bool true) memory.metadata_json;
      }
    ] in
    record edited { status = or_default status memory.status; updated_at = now }

-- The row that `delete` writes.
unfoldable pub deleted_memory : ℕ → TravelMemory → TravelMemory
deleted_memory now memory = record memory { status = MemoryStatus.deleted; updated_at = now }
