-- ===== src/Memory/Extraction.antt =====
-- app/memory.py: what `extract_from_run` makes of the rows that are there.
use diy_agent.Prelude.{
  [], ℕ, ◌≡◌, ◌≤◌, ◌⊎◌, inl, inr, refl, subst, ◌∙◌, String, Option, none, some, Bool, true, false,
  Json, arith,
}
use diy_agent.Memory.Texts.{TextRuntime}
use diy_agent.Memory.Rows.{TravelMemory, is_confirmed, find_memory}
use diy_agent.Memory.Candidates.{extract_memory_candidates}
use diy_agent.Memory.Backend.{IsoFormat, MemoryStoreBackend}
use diy_agent.Memory.Service.{MemoryState, settled, Extracted, after_extraction, extract_from_run}
use diy_agent.Memory.Writes.{
  RowsAreUnique, SameIdentity, Rests, Rests-trans, Writes, here, Writes-find_memory,
}
use diy_agent.Memory.Merges.{Merges}
use diy_agent.Memory.Collection.{WritesSoFar, candidates-WritesSoFar}

-- What an extraction leaves of a row: all of it, if the row is deleted or another user's, and
-- otherwise its identity, its confidence at least, and its confirmation.
pub record Kept (user_id : ℕ) (row later : TravelMemory) : Type 0 where
  pub identity : SameIdentity later row
  pub surer : row.confidence ≤ later.confidence
  pub settled : (is_confirmed row.status ≡ false) ⊎ (is_confirmed later.status ≡ true)
  pub tombstone : Rests row later
  pub others : (row.user_id ≡ user_id) ⊎ (later ≡ row)

Kept-refl : (user_id : ℕ) (row : TravelMemory) → Kept user_id row row
Kept-refl user_id row = record {
  identity = (refl, refl, refl);
  surer = omega arith;
  settled = ground arith;
  tombstone = inr refl;
  others = inr refl;
}

Kept-trans :
    (user_id : ℕ) (a b c : TravelMemory) → Kept user_id a b → Kept user_id b c → Kept user_id a c
Kept-trans user_id a b c f g = record {
  identity =
      (g.identity.0 ∙ f.identity.0, g.identity.1 ∙ f.identity.1, g.identity.2 ∙ f.identity.2);
  surer = let x = f.surer in let y = g.surer in omega arith;
  settled = let x = f.settled in let y = g.settled in ground arith;
  tombstone = Rests-trans a b c (f.tombstone) (g.tombstone);
  others = elim (f.others) [
    | inl mine ↦ inl mine
    | inr same ↦ elim (g.others) [
      | inl mine ↦ inl (subst (λ (m : TravelMemory). m.user_id ≡ user_id) same mine)
      | inr again ↦ inr (again ∙ same)
    ]
  ];
}

Merges-Kept :
    (user_id : ℕ) (old changed : TravelMemory)
    → SameIdentity changed old
    → Merges user_id old changed
    → Kept user_id old changed
Merges-Kept user_id old changed same m = record {
  identity = same;
  surer = m.surer;
  settled = m.settled;
  tombstone = inl m.alive;
  others = inl m.owner;
}

module _ {S : Type 0} (backend : MemoryStoreBackend S) (iso : IsoFormat) (rt : TextRuntime) where
  after_extraction-Writes :
      (user_id : ℕ) (state : MemoryState S) (r : Extracted)
      → WritesSoFar iso [] user_id state.rows r
      → Writes
          (Merges user_id)
          state.rows
          (settled state (after_extraction backend iso state.store r)).rows
  after_extraction-Writes user_id state none w = here
  after_extraction-Writes user_id state (some (memories, rows)) w = w.0

  pub extract_from_run-Writes :
      (auto_extract : Bool) (user_id message_id run_id : ℕ) (prompt : String)
      (planning_request : Option Json) (new_id : String → ℕ) (now : ℕ) (state : MemoryState S)
      → RowsAreUnique state.rows
      → Writes
          (Merges user_id)
          state.rows
          (settled state (
            extract_from_run backend iso rt auto_extract user_id message_id run_id prompt
              planning_request new_id now state)).rows
  unfolding extract_from_run
  extract_from_run-Writes false user_id message_id run_id prompt planning_request new_id now state
        u =
      here
  extract_from_run-Writes true user_id message_id run_id prompt planning_request new_id now state
        u =
      after_extraction-Writes user_id state _ (
        candidates-WritesSoFar iso [] user_id message_id run_id new_id now
          (extract_memory_candidates rt prompt planning_request) state.rows _ u (here, tt, tt))

  -- In a table without doubles an extraction loses no row, and of a row that was there it leaves
  -- the identity, and a confidence and a confirmation that are no less; a deleted row and a row of
  -- another user it leaves as they are.
  pub extract_from_run-Kept :
      (auto_extract : Bool) (user_id message_id run_id : ℕ) (prompt : String)
      (planning_request : Option Json) (new_id : String → ℕ) (now : ℕ) (state : MemoryState S)
      (k : ℕ) (row : TravelMemory)
      → RowsAreUnique state.rows
      → find_memory k state.rows ≡ some row
      → (later : TravelMemory) × (find_memory k
            (settled state (
              extract_from_run backend iso rt auto_extract user_id message_id run_id prompt
                planning_request new_id now state)).rows
          ≡ some later)
        × Kept user_id row later
  extract_from_run-Kept auto_extract user_id message_id run_id prompt planning_request new_id now
        state k row u h =
      Writes-find_memory (Kept-refl user_id) (Kept-trans user_id) (Merges-Kept user_id) k row
        (extract_from_run-Writes auto_extract user_id message_id run_id prompt planning_request
          new_id now state u)
        h
