-- ===== src/Memory/Candidates.antt =====
-- app/memory.py: `extract_memory_candidates`. The planning request is the one that the result of a
-- Run holds, whose `interests` are a list.
use diy_agent.Prelude.{
  ℕ, String, Option, none, some, List, [], ◌∷◌, Bool, Json, Fields, null, str, field, end, get,
  elements, as_text, text_append, text_eq, has_token, any_of, if◌then◌else◌,
}
use diy_agent.Memory.Texts.{TextRuntime, clean_content, content_key, split_sentences}
use diy_agent.Memory.Rows.{MemoryStatus, MemoryType}

pub record MemoryCandidate : Type 0 where
  pub normalized_key : String
  pub memory_type : MemoryType
  pub content : String
  pub confidence : ℕ
  pub status : MemoryStatus
  pub metadata : Fields

-- `candidates[key] = candidate`: a key that is there keeps its place.
abbrev pub put_candidate : MemoryCandidate → List MemoryCandidate → List MemoryCandidate
put_candidate new [] = new ∷ []
put_candidate new (old ∷ rest) =
    if text_eq old.normalized_key new.normalized_key
    then new ∷ rest
    else old ∷ put_candidate new rest

-- `{"extraction": "planning_form", "field": name}`
abbrev pub form_metadata : String → Fields
form_metadata name = field "extraction" (str "planning_form") (field "field" (str name) end)

-- A candidate that comes from a field of the planning form.
unfoldable pub form_candidate : TextRuntime → String → String → String → ℕ → MemoryCandidate
unfolding content_key
form_candidate rt prefix name content confidence = record {
  normalized_key = content_key rt prefix content;
  memory_type = MemoryType.preference;
  content = content;
  confidence = confidence;
  status = MemoryStatus.candidate;
  metadata = form_metadata name;
}

-- The loop over the interests.
unfoldable pub add_interests : TextRuntime → List Json → List MemoryCandidate → List MemoryCandidate
add_interests rt [] candidates = candidates
add_interests rt (interest ∷ rest) candidates =
    let content = clean_content rt (str (text_append "旅行时偏好：" (as_text rt.python interest))) in
    add_interests rt rest (
      if text_eq content ""
      then candidates
      else put_candidate (form_candidate rt "interest" "interests" content 85) candidates)

-- A single field of the form: the budget, and the additional preferences.
unfoldable pub add_field_candidate :
    TextRuntime → Json → String → String → String → ℕ → List MemoryCandidate → List MemoryCandidate
add_field_candidate rt request prefix name label confidence candidates =
    let value = clean_content rt (get name request) in
    if text_eq value ""
    then candidates
    else put_candidate (form_candidate rt prefix name (text_append label value) confidence)
        candidates

abbrev pub stable_markers : List String
stable_markers = "请记住" ∷ "以后" ∷ "总是" ∷ "一向" ∷ "我喜欢" ∷ "我不喜欢" ∷ []

abbrev pub rejecting_markers : List String
rejecting_markers = "我不喜欢" ∷ "不要" ∷ "避免" ∷ "拒绝" ∷ "不想" ∷ []

abbrev pub has_marker : List String → String → Bool
has_marker markers content = any_of (λ marker. has_token marker content) markers

-- The candidate of an explicit statement.
unfoldable pub explicit_candidate : TextRuntime → String → MemoryCandidate
unfolding content_key
explicit_candidate rt content =
    let rejects = has_marker rejecting_markers content in
    record {
      normalized_key = content_key rt (if rejects then "rejected" else "preference") content;
      memory_type = if rejects then MemoryType.rejected else MemoryType.preference;
      content = content;
      confidence = 98;
      status = MemoryStatus.confirmed;
      metadata = field "extraction" (str "explicit_statement") end;
    }

-- The loop over the sentences.
unfoldable pub add_statements :
    TextRuntime → List String → List MemoryCandidate → List MemoryCandidate
add_statements rt [] candidates = candidates
add_statements rt (sentence ∷ rest) candidates =
    let content = clean_content rt (str sentence) in
    add_statements rt rest (
      if text_eq content ""
      then candidates
      else if has_marker stable_markers content
      then put_candidate (explicit_candidate rt content) candidates
      else candidates)

-- `planning_request or {}`
abbrev pub request_or_empty : Option Json → Json
request_or_empty none = null
request_or_empty (some request) = request

-- `extract_memory_candidates`
unfoldable pub extract_memory_candidates : TextRuntime → String → Option Json → List MemoryCandidate
unfolding add_interests add_field_candidate add_statements
extract_memory_candidates rt prompt planning_request =
    let request = request_or_empty planning_request in
    let interests = add_interests rt (elements (get "interests" request)) [] in
    let budget = add_field_candidate rt request "budget" "budget" "常用旅行预算偏好候选：" 65 interests in
    let additional =
      add_field_candidate rt request "additional" "additional_preferences" "旅行补充偏好候选：" 70 budget in
    add_statements rt (split_sentences prompt) additional
