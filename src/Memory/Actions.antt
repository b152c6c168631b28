-- ===== src/Memory/Actions.antt =====
-- app/memory.py: the methods of `MemoryService` one after another.
use diy_agent.Prelude.{
  ℕ, ◌≡◌, refl, sym, subst, ap, ◌∙◌, String, Option, none, some, List, [], ◌∷◌, Bool, true, false,
  not, ◌&&◌, ◌==◌, Json, inl, inr, arith, Option-cases, Bool-cases, if_true, if_false,
}
use diy_agent.Memory.Texts.{TextRuntime}
use diy_agent.Memory.Rows.{
  MemoryStatus, MemoryType, TravelMemory, is_deleted, find_memory, find_live, clashes,
  insert_memory, put_memory,
}
use diy_agent.Memory.Backend.{IsoFormat, MemoryStoreBackend}
use diy_agent.Memory.Service.{
  MemoryState, settled, manual_memory, updated_memory, deleted_memory, create_manual, after_insert,
  extract_from_run, update, delete,
}
use diy_agent.Memory.Recall.{recall}
use diy_agent.Memory.Writes.{
  RowsAreUnique, Rests, Rests-trans, Writes, here, add, change, Writes-RowsAreUnique,
  Writes-find_memory, Writes-map, first-find_memory,
}
use diy_agent.Memory.Merges.{Merges}
use diy_agent.Memory.Extraction.{extract_from_run-Writes}

-- A call of a method, with what it takes from its caller, the clock and `uuid4`.
pub data MemoryAction : Type 0 where
  creation : ℕ → String → MemoryType → ℕ → String → ℕ → MemoryAction
  extraction : Bool → ℕ → ℕ → ℕ → String → Option Json → (String → ℕ) → ℕ → MemoryAction
  edit : ℕ → ℕ → Option String → Option MemoryStatus → ℕ → MemoryAction
  deletion : ℕ → ℕ → ℕ → MemoryAction
  recollection : ℕ → ℕ → String → ℕ → MemoryAction

-- A change of a row that is not deleted.
abbrev pub Revises : TravelMemory → TravelMemory → Type 0
Revises old changed = is_deleted old.status ≡ false

-- The row that `update` and `delete` find is alive, and the only one with its identifier.
pub find_live-found :
    (user_id memory_id : ℕ) (rows : List TravelMemory) {memory : TravelMemory}
    → RowsAreUnique rows
    → find_live user_id memory_id rows ≡ some memory
    → (find_memory memory.id rows ≡ some memory)
      × (is_deleted memory.status ≡ false)
      × (memory.id ≡ memory_id)
      × (memory.user_id ≡ user_id)
find_live-found user_id memory_id rows {memory = memory} u h =
    let (found, fits) =
      first-find_memory
        (λ row. row.id == memory_id && row.user_id == user_id && not (is_deleted row.status)) rows
        {found = memory} u h in
    (found, ground arith, ground arith, ground arith)

module _ {S : Type 0} (backend : MemoryStoreBackend S) (iso : IsoFormat) (rt : TextRuntime) where
  -- The table and the Store after a call.
  unfoldable pub perform : MemoryAction → MemoryState S → MemoryState S
  unfolding create_manual extract_from_run update delete recall
  perform (MemoryAction.creation user_id content memory_type new_id hex now) state =
      settled state (create_manual backend iso rt user_id content memory_type new_id hex now state)
  perform (MemoryAction.extraction auto_extract user_id message_id run_id prompt request new_id now)
        state =
      settled state (
        extract_from_run backend iso rt auto_extract user_id message_id run_id prompt request new_id
          now state)
  perform (MemoryAction.edit user_id memory_id content status now) state =
      (update backend iso rt user_id memory_id content status now state).1
  perform (MemoryAction.deletion user_id memory_id now) state =
      (delete backend iso user_id memory_id now state).1
  perform (MemoryAction.recollection recall_limit user_id query now) state =
      (recall backend rt iso recall_limit user_id query now state).1

  unfoldable pub perform_all : List MemoryAction → MemoryState S → MemoryState S
  unfolding perform
  perform_all [] state = state
  perform_all (action ∷ rest) state = perform_all rest (perform action state)

  creation-Writes :
      (new : TravelMemory) (state : MemoryState S)
      → Writes Revises state.rows
          (settled state
            (after_insert backend iso new state.store (insert_memory new state.rows))).rows
  unfolding insert_memory
  creation-Writes new state = elim (Bool-cases (clashes new state.rows)) [
    | inl kept_out ↦
        subst
          (λ r.
            Writes Revises state.rows
              (settled state (after_insert backend iso new state.store r)).rows)
          (sym (if_true _ _ kept_out)) here
    | inr free ↦
        subst
          (λ r.
            Writes Revises state.rows
              (settled state (after_insert backend iso new state.store r)).rows)
          (sym (if_false _ _ free)) (add new here free)
  ]

  updated-Writes :
      (content : Option String) (status : Option MemoryStatus) (now : ℕ) (memory : TravelMemory)
      (rows : List TravelMemory)
      → find_memory memory.id rows ≡ some memory
      → is_deleted memory.status ≡ false
      → Writes Revises rows (put_memory (updated_memory rt content status now memory) rows)
  unfolding updated_memory
  updated-Writes none status now memory rows found alive =
      change memory (updated_memory rt none status now memory) here found (refl, refl, refl) alive
  updated-Writes (some text) status now memory rows found alive =
      change memory (updated_memory rt (some text) status now memory) here found (refl, refl, refl)
        alive

  pub perform-Writes :
      (action : MemoryAction) (state : MemoryState S)
      → RowsAreUnique state.rows
      → Writes Revises state.rows (perform action state).rows
  unfolding perform create_manual update delete recall updated_memory deleted_memory
  perform-Writes (MemoryAction.creation user_id content memory_type new_id hex now) state u =
      creation-Writes (manual_memory rt user_id content memory_type new_id hex now) state
  perform-Writes
        (MemoryAction.extraction auto_extract user_id message_id run_id prompt request new_id now)
        state u =
      Writes-map (λ old changed (m : Merges user_id old changed). m.alive)
        (extract_from_run-Writes backend iso rt auto_extract user_id message_id run_id prompt
          request new_id now state u)
  perform-Writes (MemoryAction.edit user_id memory_id content status now) state u =
      elim (Option-cases (find_live user_id memory_id state.rows)) [
        | inl missing ↦ rw (missing, perform, update) here
        | inr (memory, e) ↦
            let (found, alive, mine, owner) = find_live-found user_id memory_id state.rows u e in
            rw (e, perform, update)
              (updated-Writes content status now memory state.rows found alive)
      ]
  perform-Writes (MemoryAction.deletion user_id memory_id now) state u =
      elim (Option-cases (find_live user_id memory_id state.rows)) [
        | inl missing ↦ rw (missing, perform, delete) here
        | inr (memory, e) ↦
            let (found, alive, mine, owner) = find_live-found user_id memory_id state.rows u e in
            rw (e, perform, delete)
              (change memory (deleted_memory now memory) here found (refl, refl, refl) alive)
      ]
  perform-Writes (MemoryAction.recollection recall_limit user_id query now) state u = here

  -- Whatever methods are called in whatever order, no two memories come to have the same
  -- identifier, or the same user and key.
  pub perform_all-RowsAreUnique :
      (actions : List MemoryAction) (state : MemoryState S)
      → RowsAreUnique state.rows
      → RowsAreUnique (perform_all actions state).rows
  unfolding perform_all
  perform_all-RowsAreUnique [] state u = u
  perform_all-RowsAreUnique (action ∷ rest) state u =
      perform_all-RowsAreUnique rest (perform action state)
        (Writes-RowsAreUnique u (perform-Writes action state u))

  perform-deleted :
      (action : MemoryAction) (state : MemoryState S) (k : ℕ) (row : TravelMemory)
      → RowsAreUnique state.rows
      → find_memory k state.rows ≡ some row
      → is_deleted row.status ≡ true
      → find_memory k (perform action state).rows ≡ some row
  perform-deleted action state k row u h gone =
      let (later, there, same) =
        Writes-find_memory {Q = Rests} (λ a. inr refl) Rests-trans
          (λ old changed identity alive. inl alive) k row (perform-Writes action state u) h in
      elim same [ inl alive ↦ absurd (ground (arith, gone, alive)) | inr e ↦ there ∙ ap some e ]

  -- A deleted memory is a tombstone: whatever methods are called in whatever order, it stays in
  -- the table just as it is. So it is never edited or extracted again.
  pub perform_all-deleted :
      (actions : List MemoryAction) (state : MemoryState S) (k : ℕ) (row : TravelMemory)
      → RowsAreUnique state.rows
      → find_memory k state.rows ≡ some row
      → is_deleted row.status ≡ true
      → find_memory k (perform_all actions state).rows ≡ some row
  unfolding perform_all
  perform_all-deleted [] state k row u h gone = h
  perform_all-deleted (action ∷ rest) state k row u h gone =
      perform_all-deleted rest (perform action state) k row
        (Writes-RowsAreUnique u (perform-Writes action state u))
        (perform-deleted action state k row u h gone) gone
