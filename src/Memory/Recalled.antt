-- ===== src/Memory/Recalled.antt =====
-- app/memory.py: what `recall` gives after any calls of the service.
use diy_agent.Prelude.{
  ℕ, ◌≡◌, ◌≤◌, ap, ◌∙◌, str, refl, sym, subst, String, Option, none, some, List, [], ◌∷◌, true,
  false, inl, inr, arith, All, All-imp, All-take, length, length-take, length-map, take,
  Option-cases, Bool-cases, if_true, if_false,
}
use diy_agent.Memory.Texts.{TextRuntime, clean_content, tokens}
use diy_agent.Memory.Rows.{
  MemoryStatus, TravelMemory, is_confirmed, find_memory, find_live, clashes, insert_memory,
  put_memory,
}
use diy_agent.Memory.Backend.{IsoFormat, StoreValue, store_value, MemoryStoreBackend, BackendLaws}
use diy_agent.Memory.Service.{
  MemoryState, settled, manual_memory, updated_memory, deleted_memory, sync, sync_all,
  create_manual, after_insert, after_extraction, extract_from_run, update, delete, Extracted,
}
use diy_agent.Memory.Candidates.{extract_memory_candidates}
use diy_agent.Memory.Recall.{
  recall, recall_records, recall_values, is_current, Ranked, rank_values, best_first,
}
use diy_agent.Memory.Writes.{RowsAreUnique, here, Writes-RowsAreUnique}
use diy_agent.Memory.Held.{EntryIsLive, Covered}
use diy_agent.Memory.Collection.{WritesSoFar, candidates-WritesSoFar}
use diy_agent.Memory.Actions.{
  MemoryAction, perform, perform_all, perform_all-RowsAreUnique, perform-Writes, find_live-found,
}
use diy_agent.Memory.Live.{StoreIsLive, sync_all-StoreIsLive, put-StoreIsLive, append-StoreIsLive}
use diy_agent.Memory.Ranked.{
  All-IsIn, All-map, best_first-All, Recalls, IsOfRow, IsRecalled, rank_values-All,
  recall_records-found,
}

module _ {S : Type 0} (backend : MemoryStoreBackend S) (laws : BackendLaws S backend)
    (iso : IsoFormat) (rt : TextRuntime)
    (puts : (user_id key : ℕ) (value : StoreValue) (s : S)
      → (after : S) × (backend.put user_id key value s ≡ some after))
    (deletes : (user_id key : ℕ) (s : S)
      → (after : S) × (backend.delete user_id key s ≡ some after)) where
  -- The Store holds values of rows only, which are not deleted and as they are in the table.
  abbrev pub StateIsLive : MemoryState S → Type 0
  StateIsLive state = StoreIsLive backend laws iso puts deletes state.rows state.store

  creation-StateIsLive :
      (new : TravelMemory) (state : MemoryState S)
      → StateIsLive state
      → StateIsLive
          (settled state (after_insert backend iso new state.store (insert_memory new state.rows)))
  unfolding insert_memory
  creation-StateIsLive new state h = elim (Bool-cases (clashes new state.rows)) [
    | inl kept_out ↦
        subst (λ r. StateIsLive (settled state (after_insert backend iso new state.store r)))
          (sym (if_true _ _ kept_out)) h
    | inr free ↦
        subst (λ r. StateIsLive (settled state (after_insert backend iso new state.store r)))
          (sym (if_false _ _ free))
          (append-StoreIsLive backend laws iso puts deletes new state.rows state.store free h)
  ]

  extraction-StateIsLive :
      (user_id : ℕ) (state : MemoryState S) (r : Extracted)
      → StateIsLive state
      → WritesSoFar iso (laws.contents state.store) user_id state.rows r
      → StateIsLive (settled state (after_extraction backend iso state.store r))
  extraction-StateIsLive user_id state none h w = h
  extraction-StateIsLive user_id state (some (memories, rows)) h (w, covered, held) =
      sync_all-StoreIsLive backend laws iso puts deletes memories rows state.store covered held

  updated-StateIsLive :
      (content : Option String) (status : Option MemoryStatus) (now : ℕ) (memory : TravelMemory)
      (state : MemoryState S)
      → find_memory memory.id state.rows ≡ some memory
      → StateIsLive state
      → (let changed = updated_memory rt content status now memory in
          StateIsLive (record {
            rows = put_memory changed state.rows;
            store = sync backend iso changed state.store;
          }))
  unfolding updated_memory
  updated-StateIsLive none status now memory state found h =
      put-StoreIsLive backend laws iso puts deletes memory
        (updated_memory rt none status now memory) state.rows state.store found refl h
  updated-StateIsLive (some text) status now memory state found h =
      put-StoreIsLive backend laws iso puts deletes memory
        (updated_memory rt (some text) status now memory) state.rows state.store found refl h

  All-Covered :
      (rows memories : List TravelMemory)
      → All (λ (m : TravelMemory). find_memory m.id rows ≡ some m) memories
      → Covered rows memories
  All-Covered rows [] h = tt
  All-Covered rows (memory ∷ rest) h = (inl h.0, All-Covered rows rest h.1)

  recall-StateIsLive :
      (user_id now : ℕ) (state : MemoryState S)
      → RowsAreUnique state.rows
      → StateIsLive state
      → StoreIsLive backend laws iso puts deletes state.rows
          (sync_all backend iso (recall_records state.rows user_id now) state.store)
  recall-StateIsLive user_id now state u h =
      let records = recall_records state.rows user_id now in
      sync_all-StoreIsLive backend laws iso puts deletes records state.rows state.store
        (All-Covered state.rows records
          (All-imp records (λ row both. both.0) (recall_records-found state.rows user_id now u)))
        (All-imp (laws.contents state.store) (λ entry live. inr live) h)

  perform-StateIsLive :
      (action : MemoryAction) (state : MemoryState S)
      → RowsAreUnique state.rows
      → StateIsLive state
      → StateIsLive (perform backend iso rt action state)
  unfolding perform create_manual extract_from_run update delete recall deleted_memory
  perform-StateIsLive (MemoryAction.creation user_id content memory_type new_id hex now) state u h =
      creation-StateIsLive (manual_memory rt user_id content memory_type new_id hex now) state h
  perform-StateIsLive
        (MemoryAction.extraction true user_id message_id run_id prompt request new_id now) state u
        h =
      extraction-StateIsLive user_id state _ h (
        candidates-WritesSoFar iso (laws.contents state.store) user_id message_id run_id new_id now
          (extract_memory_candidates rt prompt request) state.rows _ u
          (here, tt, All-imp (laws.contents state.store) (λ entry live. inr live) h))
  perform-StateIsLive
        (MemoryAction.extraction false user_id message_id run_id prompt request new_id now) state u
        h =
      h
  perform-StateIsLive (MemoryAction.edit user_id memory_id content status now) state u h =
      elim (Option-cases (find_live user_id memory_id state.rows)) [
        | inl missing ↦ rw (missing, perform, update) h
        | inr (memory, e) ↦
            let (found, alive, mine, owner) = find_live-found user_id memory_id state.rows u e in
            rw (e, perform, update) (updated-StateIsLive content status now memory state found h)
      ]
  perform-StateIsLive (MemoryAction.deletion user_id memory_id now) state u h =
      elim (Option-cases (find_live user_id memory_id state.rows)) [
        | inl missing ↦ rw (missing, perform, delete) h
        | inr (memory, e) ↦
            let (found, alive, mine, owner) = find_live-found user_id memory_id state.rows u e in
            rw (e, perform, delete)
              (put-StoreIsLive backend laws iso puts deletes memory (deleted_memory now memory)
                state.rows state.store found refl h)
      ]
  perform-StateIsLive (MemoryAction.recollection recall_limit user_id query now) state u h =
      recall-StateIsLive user_id now state u h

  perform_all-StateIsLive :
      (actions : List MemoryAction) (state : MemoryState S)
      → RowsAreUnique state.rows
      → StateIsLive state
      → StateIsLive (perform_all backend iso rt actions state)
  unfolding perform_all
  perform_all-StateIsLive [] state u h = h
  perform_all-StateIsLive (action ∷ rest) state u h =
      perform_all-StateIsLive rest (perform backend iso rt action state)
        (Writes-RowsAreUnique u (perform-Writes backend iso rt action state u))
        (perform-StateIsLive action state u h)

  found-IsOfRow :
      (rows : List TravelMemory) (user_id key : ℕ) (value : StoreValue)
      → value.status ≡ MemoryStatus.confirmed
      → EntryIsLive iso rows (record { user_id = user_id; key = key; value = value })
      → IsOfRow iso rows user_id value
  unfolding store_value
  found-IsOfRow rows user_id key value sure (row, found, mine, alive, same) =
      let status : value.status ≡ row.status = ap (λ (v : StoreValue). v.status) same in
      (key, row, found, mine, ap is_confirmed (sym status ∙ sure), same)

  -- The values that `recall` ranks are of confirmed rows of the user.
  recall_values-IsOfRow :
      (rows : List TravelMemory) (user_id now : ℕ) (store : S)
      → RowsAreUnique rows
      → StoreIsLive backend laws iso puts deletes rows store
      → All
          (IsOfRow iso rows user_id)
          (recall_values backend rt iso (recall_records rows user_id now) user_id store)
  unfolding recall_values
  recall_values-IsOfRow rows user_id now store u h =
      elim (Option-cases (backend.search user_id MemoryStatus.confirmed 100 store)) [
        | inl failed ↦
            rw (failed, recall_values)
              (All-map _ (store_value iso) (recall_records rows user_id now) (
                All-imp (recall_records rows user_id now)
                  (λ (row : TravelMemory) both. (row.id, row, both.0, both.1, both.2, refl))
                  (recall_records-found rows user_id now u)))
        | inr (found, e) ↦
            rw (e, recall_values)
              (All-imp found
                (λ value held.
                  let (fits, (key, there)) = held in
                  found-IsOfRow rows user_id key value fits
                    (All-IsIn (EntryIsLive iso rows) (laws.contents store) _ h there))
                (laws.search-contents user_id MemoryStatus.confirmed 100 e))
      ]

  Recalls-IsRecalled :
      (rows : List TravelMemory) (user_id now : ℕ) (text : String)
      → Recalls rt iso now (IsOfRow iso rows user_id) text
      → IsRecalled rt iso rows user_id now text
  unfolding store_value
  Recalls-IsRecalled rows user_id now text
        (value, (key, row, found, mine, sure, same), current, content, full) =
      (
        key,
        row,
        found,
        mine,
        sure,
        ap (λ (v : StoreValue). is_current iso now v.expires_at) (sym same) ∙ current,
        content ∙ ap (λ (v : StoreValue). clean_content rt (str v.content)) same,
        full,
      )

  -- Take a Store whose writes and deletions go through, and a table without doubles such that the
  -- Store holds values of rows only, which are not deleted and as they are in the table. Then after
  -- any calls in any order `recall` gives at most `recall_limit` texts, and each is the content of a
  -- row of the user in question that is then in the table, confirmed (so not deleted), not expired
  -- and not empty.
  pub recall-IsRecalled :
      (actions : List MemoryAction) (state : MemoryState S) (recall_limit user_id : ℕ)
      (query : String) (now : ℕ)
      → RowsAreUnique state.rows
      → StateIsLive state
      → (let after = perform_all backend iso rt actions state in
          let texts = (recall backend rt iso recall_limit user_id query now after).0 in
          (length texts ≤ recall_limit) × All (IsRecalled rt iso after.rows user_id now) texts)
  unfolding recall
  recall-IsRecalled actions state recall_limit user_id query now u h =
      let after = perform_all backend iso rt actions state in
      let unique = perform_all-RowsAreUnique backend iso rt actions state u in
      let records = recall_records after.rows user_id now in
      let store = sync_all backend iso records after.store in
      let live =
        recall-StateIsLive user_id now after unique (perform_all-StateIsLive actions state u h) in
      let values = recall_values backend rt iso records user_id store in
      let ranked = rank_values rt iso now (tokens rt query) values in
      let best = take recall_limit (best_first ranked) in
      (
        omega (
          arith,
          length-map (λ (entry : Ranked). entry.content) best,
          length-take recall_limit (best_first ranked),
        ),
        All-map (IsRecalled rt iso after.rows user_id now) (λ (entry : Ranked). entry.content) best
            (All-imp best
              (λ (entry : Ranked) text.
                Recalls-IsRecalled after.rows user_id now entry.content text)
              (All-take _ recall_limit (best_first ranked) (
                best_first-All
                  (λ entry. Recalls rt iso now (IsOfRow iso after.rows user_id) entry.content)
                  ranked
                  (rank_values-All rt iso now (tokens rt query) (IsOfRow iso after.rows user_id)
                    values (recall_values-IsOfRow after.rows user_id now store unique live))))),
      )
