-- ===== src/Memory/Offers.antt =====
-- app/memory.py: what `extract_memory_candidates` offers to the table.
use diy_agent.Prelude.{
  ℕ, ◌≡◌, ◌≤◌, ◌⊎◌, refl, sym, subst, ◌∙◌, String, Option, List, [], ◌∷◌, Bool, true, false, Json,
  str, get, elements, as_text, text_append, inl, inr, arith, All, Bool-cases, if_true, if_false,
  if◌then◌else◌, text_eq, text_eq_sym, text_length, take_text-length,
}
use text.Mathlib.TextEquality.{eq_iff}
use diy_agent.Memory.Texts.{TextRuntime, clean_content, content_key, split_sentences}
use diy_agent.Memory.Rows.{is_deleted, is_confirmed}
use diy_agent.Memory.Candidates.{
  MemoryCandidate, put_candidate, form_candidate, add_interests, add_field_candidate,
  stable_markers, has_marker, explicit_candidate, add_statements, request_or_empty,
  extract_memory_candidates,
}

abbrev pub HasOtherKey : String → MemoryCandidate → Type 0
HasOtherKey key candidate = text_eq candidate.normalized_key key ≡ false

-- No two candidates have the same key.
abbrev pub KeysAreUnique : List MemoryCandidate → Type 0
KeysAreUnique [] = Unit
KeysAreUnique (candidate ∷ rest) =
    All (HasOtherKey candidate.normalized_key) rest × KeysAreUnique rest

-- A candidate that the table can take: the key fits its column, and the candidate is no tombstone.
-- It is confirmed only with the confidence of an explicit statement, which no other reaches.
pub record CandidateFits (candidate : MemoryCandidate) : Type 0 where
  pub key_fits : text_length candidate.normalized_key ≤ 255
  pub alive : is_deleted candidate.status ≡ false
  pub sure :
      ((is_confirmed candidate.status ≡ true) × (candidate.confidence ≡ 98))
      ⊎ ((is_confirmed candidate.status ≡ false) × (candidate.confidence ≤ 85))

abbrev pub CandidatesFit : List MemoryCandidate → Type 0
CandidatesFit candidates = All CandidateFits candidates × KeysAreUnique candidates

put_candidate-All :
    (P : MemoryCandidate → Type 0) (new : MemoryCandidate) (candidates : List MemoryCandidate)
    → P new
    → All P candidates
    → All P (put_candidate new candidates)
put_candidate-All P new [] p h = (p, tt)
put_candidate-All P new (old ∷ rest) p h =
    elim (Bool-cases (text_eq old.normalized_key new.normalized_key)) [
      | inl same ↦ subst (All P) (sym (if_true _ _ same)) (p, h.1)
      | inr apart ↦
          subst (All P) (sym (if_false _ _ apart)) (h.0, put_candidate-All P new rest p h.1)
    ]

put_candidate-KeysAreUnique :
    (new : MemoryCandidate) (candidates : List MemoryCandidate)
    → KeysAreUnique candidates
    → KeysAreUnique (put_candidate new candidates)
put_candidate-KeysAreUnique new [] u = (tt, tt)
put_candidate-KeysAreUnique new (old ∷ rest) u =
    elim (Bool-cases (text_eq old.normalized_key new.normalized_key)) [
      | inl same ↦ subst KeysAreUnique (sym (if_true _ _ same)) (
        subst (λ key. All (HasOtherKey key) rest)
            ((eq_iff old.normalized_key new.normalized_key).0 same) u.0,
        u.1,
      )
      | inr apart ↦ subst KeysAreUnique (sym (if_false _ _ apart)) (
        put_candidate-All (HasOtherKey old.normalized_key) new rest
            (text_eq_sym new.normalized_key old.normalized_key ∙ apart) u.0,
        put_candidate-KeysAreUnique new rest u.1,
      )
    ]

put_candidate-CandidatesFit :
    (new : MemoryCandidate) (candidates : List MemoryCandidate)
    → CandidateFits new
    → CandidatesFit candidates
    → CandidatesFit (put_candidate new candidates)
put_candidate-CandidatesFit new candidates f h = (
  put_candidate-All CandidateFits new candidates f h.0,
  put_candidate-KeysAreUnique new candidates h.1,
)

if-CandidatesFit :
    (test : Bool) (a b : List MemoryCandidate)
    → CandidatesFit a
    → CandidatesFit b
    → CandidatesFit (if test then a else b)
if-CandidatesFit true a b ha hb = ha
if-CandidatesFit false a b ha hb = hb

module _ (rt : TextRuntime) where
  form_candidate-CandidateFits :
      (prefix name content : String) (confidence : ℕ)
      → confidence ≤ 85
      → CandidateFits (form_candidate rt prefix name content confidence)
  unfolding form_candidate content_key
  form_candidate-CandidateFits prefix name content confidence low = record {
    key_fits = take_text-length 255 _;
    alive = refl;
    sure = inr (refl, low);
  }

  explicit_candidate-CandidateFits :
      (content : String) → CandidateFits (explicit_candidate rt content)
  unfolding explicit_candidate content_key
  explicit_candidate-CandidateFits content = record {
    key_fits = take_text-length 255 _;
    alive = refl;
    sure = inl (refl, refl);
  }

  add_interests-CandidatesFit :
      (interests : List Json) (candidates : List MemoryCandidate)
      → CandidatesFit candidates
      → CandidatesFit (add_interests rt interests candidates)
  unfolding add_interests
  add_interests-CandidatesFit [] candidates h = h
  add_interests-CandidatesFit (interest ∷ rest) candidates h =
      let content = clean_content rt (str (text_append "旅行时偏好：" (as_text rt.python interest))) in
      let new = form_candidate rt "interest" "interests" content 85 in
      add_interests-CandidatesFit rest _ (
        if-CandidatesFit (text_eq content "") candidates (put_candidate new candidates) h (
          put_candidate-CandidatesFit new candidates
            (form_candidate-CandidateFits "interest" "interests" content 85 (omega arith)) h))

  add_field_candidate-CandidatesFit :
      (request : Json) (prefix name label : String) (confidence : ℕ)
      (candidates : List MemoryCandidate)
      → confidence ≤ 85
      → CandidatesFit candidates
      → CandidatesFit (add_field_candidate rt request prefix name label confidence candidates)
  unfolding add_field_candidate
  add_field_candidate-CandidatesFit request prefix name label confidence candidates low h =
      let value = clean_content rt (get name request) in
      let new = form_candidate rt prefix name (text_append label value) confidence in
      if-CandidatesFit (text_eq value "") candidates (put_candidate new candidates) h (
        put_candidate-CandidatesFit new candidates
          (form_candidate-CandidateFits prefix name (text_append label value) confidence low) h)

  add_statements-CandidatesFit :
      (sentences : List String) (candidates : List MemoryCandidate)
      → CandidatesFit candidates
      → CandidatesFit (add_statements rt sentences candidates)
  unfolding add_statements
  add_statements-CandidatesFit [] candidates h = h
  add_statements-CandidatesFit (sentence ∷ rest) candidates h =
      let content = clean_content rt (str sentence) in
      let new = explicit_candidate rt content in
      add_statements-CandidatesFit rest _ (
        if-CandidatesFit (text_eq content "") candidates _ h (
          if-CandidatesFit (has_marker stable_markers content) (put_candidate new candidates)
            candidates
            (put_candidate-CandidatesFit new candidates (explicit_candidate-CandidateFits content)
              h)
            h))

  -- Whatever the prompt and the planning request, the candidates have keys that differ and fit
  -- their column, none is a tombstone, and the confirmed ones are surer than all others.
  pub extract_memory_candidates-CandidatesFit :
      (prompt : String) (planning_request : Option Json)
      → CandidatesFit (extract_memory_candidates rt prompt planning_request)
  unfolding extract_memory_candidates
  extract_memory_candidates-CandidatesFit prompt planning_request =
      let request = request_or_empty planning_request in
      let interests = add_interests rt (elements (get "interests" request)) [] in
      let budget = add_field_candidate rt request "budget" "budget" "常用旅行预算偏好候选：" 65 interests in
      let additional =
        add_field_candidate rt request "additional" "additional_preferences" "旅行补充偏好候选：" 70
          budget in
      add_statements-CandidatesFit (split_sentences prompt) additional (
        add_field_candidate-CandidatesFit request "additional" "additional_preferences" "旅行补充偏好候选："
          70 budget (omega arith)
          (add_field_candidate-CandidatesFit request "budget" "budget" "常用旅行预算偏好候选：" 65 interests
            (omega arith)
            (add_interests-CandidatesFit (elements (get "interests" request)) [] (tt, tt))))
