-- ===== src/Memory/Collection.antt =====
-- app/memory.py: the loop of `extract_from_run` over the candidates.
use diy_agent.Prelude.{
  ℕ, ◌≡◌, inl, inr, refl, sym, subst, String, none, some, List, [], ◌∷◌, ◌++◌, false, arith, All,
  All-imp, Option-cases, Bool-cases, if_true, if_false,
}
use diy_agent.Memory.Rows.{
  TravelMemory, is_deleted, find_memory, find_by_key, has_user_key, clashes, insert_memory,
  put_memory,
}
use diy_agent.Memory.Candidates.{MemoryCandidate}
use diy_agent.Memory.Backend.{IsoFormat, Entry}
use diy_agent.Memory.Service.{
  Extracted, inserted, merged_memory, extract_candidate, extract_candidates,
}
use diy_agent.Memory.Writes.{
  RowsAreUnique, Writes, add, change, Writes-RowsAreUnique, first-find_memory,
}
use diy_agent.Memory.Merges.{Merges}
use diy_agent.Memory.Held.{Awaits, Covered, append-Awaits, put-Awaits, append-Covered, put-Covered}

module _ (iso : IsoFormat) (entries : List Entry) (user_id : ℕ) where
  -- What a transaction has done so far, where the database has not raised: to the rows, and to
  -- what the entries of the Store are, which it does not touch.
  abbrev pub WritesSoFar : List TravelMemory → Extracted → Type 0
  WritesSoFar start none = Unit
  WritesSoFar start (some (memories, rows)) =
      Writes (Merges user_id) start rows
      × Covered rows memories
      × All (Awaits iso memories rows) entries

module _ (iso : IsoFormat) (entries : List Entry) (user_id message_id run_id : ℕ)
    (new_id : String → ℕ) (now : ℕ) where
  merged-Merges :
      (candidate : MemoryCandidate) (memory : TravelMemory)
      → memory.user_id ≡ user_id
      → is_deleted memory.status ≡ false
      → Merges user_id memory (merged_memory message_id run_id now candidate memory)
  unfolding merged_memory
  merged-Merges candidate memory owner alive = record {
    owner = owner;
    alive = alive;
    still_alive = ground arith;
    surer = ground arith;
    settled = ground arith;
  }

  inserted-WritesSoFar :
      (new : TravelMemory) (memories start rows : List TravelMemory)
      → WritesSoFar iso entries user_id start (some (memories, rows))
      → WritesSoFar iso entries user_id start (inserted new memories (insert_memory new rows))
  unfolding insert_memory
  inserted-WritesSoFar new memories start rows (w, covered, held) =
      elim (Bool-cases (clashes new rows)) [
        | inl kept_out ↦
            subst (λ r. WritesSoFar iso entries user_id start (inserted new memories r))
              (sym (if_true _ _ kept_out)) tt
        | inr free ↦
            subst (λ r. WritesSoFar iso entries user_id start (inserted new memories r))
              (sym (if_false _ _ free))
              (
                add new w free,
                append-Covered new memories rows free covered,
                All-imp entries (λ entry h. append-Awaits iso new memories rows entry h) held,
              )
      ]

  merged-WritesSoFar :
      (candidate : MemoryCandidate) (memory : TravelMemory)
      (memories start rows : List TravelMemory)
      → WritesSoFar iso entries user_id start (some (memories, rows))
      → find_memory memory.id rows ≡ some memory
      → memory.user_id ≡ user_id
      → is_deleted memory.status ≡ false
      → (let changed = merged_memory message_id run_id now candidate memory in
          WritesSoFar iso entries user_id start
            (some (memories ++ changed ∷ [], put_memory changed rows)))
  unfolding merged_memory
  merged-WritesSoFar candidate memory memories start rows (w, covered, held) found owner alive =
      let changed = merged_memory message_id run_id now candidate memory in
      (
        change memory changed w found (refl, refl, refl)
            (merged-Merges candidate memory owner alive),
        put-Covered memory changed memories rows found refl covered,
        All-imp entries (λ entry h. put-Awaits iso memory changed memories rows entry found refl h)
            held,
      )

  candidate-WritesSoFar :
      (candidate : MemoryCandidate) (memories start rows : List TravelMemory)
      → RowsAreUnique start
      → WritesSoFar iso entries user_id start (some (memories, rows))
      → WritesSoFar iso entries user_id start
          (extract_candidate user_id message_id run_id new_id now candidate memories rows)
  unfolding extract_candidate merged_memory
  candidate-WritesSoFar candidate memories start rows u w =
      elim (Option-cases (find_by_key user_id candidate.normalized_key rows)) [
        | inl missing ↦
            rw (missing, extract_candidate) (inserted-WritesSoFar _ memories start rows w)
        | inr (memory, e) ↦
            let (found, mine) =
              first-find_memory (has_user_key user_id candidate.normalized_key) rows
                {found = memory} (Writes-RowsAreUnique u w.0) e in
            let owner : memory.user_id ≡ user_id = ground arith in
            elim (Bool-cases (is_deleted memory.status)) [
              | inl gone ↦
                  rw (e, extract_candidate)
                    (subst (WritesSoFar iso entries user_id start) (sym (if_true _ _ gone)) w)
              | inr alive ↦
                  rw (e, extract_candidate)
                    (subst (WritesSoFar iso entries user_id start) (sym (if_false _ _ alive))
                      (merged-WritesSoFar candidate memory memories start rows w found owner alive))
            ]
      ]

  pub candidates-WritesSoFar :
      (candidates : List MemoryCandidate) (start : List TravelMemory) (so_far : Extracted)
      → RowsAreUnique start
      → WritesSoFar iso entries user_id start so_far
      → WritesSoFar iso entries user_id start
          (extract_candidates user_id message_id run_id new_id now candidates so_far)
  unfolding extract_candidates
  candidates-WritesSoFar [] start so_far u w = w
  candidates-WritesSoFar (candidate ∷ rest) start none u w = tt
  candidates-WritesSoFar (candidate ∷ rest) start (some (memories, rows)) u w =
      candidates-WritesSoFar rest start _ u
        (candidate-WritesSoFar candidate memories start rows u w)
