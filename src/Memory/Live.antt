-- ===== src/Memory/Live.antt =====
-- app/memory.py: the Store follows the rows, while its writes and deletions go through.
use diy_agent.Prelude.{
  ℕ, ◌≡◌, ◌⊎◌, refl, sym, subst, ap, ◌∙◌, some, List, [], ◌∷◌, ◌++◌, true, false, not, any_of, inl,
  inr, arith, All, All-imp, All-keep, Bool-cases, if_true, if_false, or_default,
}
use diy_agent.Memory.Rows.{TravelMemory, is_deleted, find_memory, clashes, put_memory}
use diy_agent.Memory.Backend.{
  IsoFormat, StoreValue, store_value, MemoryStoreBackend, BackendLaws, Entry, is_at, without_entry,
}
use diy_agent.Memory.Service.{sync, sync_all}
use diy_agent.Memory.Held.{
  EntryIsLive, Awaits, same_place, Covered, append-Awaits, put-Awaits, append-Covered, put-Covered,
}

without-Awaits :
    (iso : IsoFormat) (memory : TravelMemory) (rest rows : List TravelMemory) (entries : List Entry)
    → All (Awaits iso (memory ∷ rest) rows) entries
    → All (Awaits iso rest rows) (without_entry memory.user_id memory.id entries)
without-Awaits iso memory rest rows entries h =
    All-imp (without_entry memory.user_id memory.id entries) one (
      All-keep (Awaits iso (memory ∷ rest) rows)
        (λ entry. not (is_at memory.user_id memory.id entry)) entries h)
  where
    one :
        (entry : Entry)
        → Awaits iso (memory ∷ rest) rows entry
          × (not (is_at memory.user_id memory.id entry) ≡ true)
        → Awaits iso rest rows entry
    one entry (inl at, apart) = inl (ground (arith, at, apart))
    one entry (inr live, apart) = inr live

module _ {S : Type 0} (backend : MemoryStoreBackend S) (laws : BackendLaws S backend)
    (iso : IsoFormat)
    (puts : (user_id key : ℕ) (value : StoreValue) (s : S)
      → (after : S) × (backend.put user_id key value s ≡ some after))
    (deletes : (user_id key : ℕ) (s : S)
      → (after : S) × (backend.delete user_id key s ≡ some after)) where
  abbrev pub StoreIsLive : List TravelMemory → S → Type 0
  StoreIsLive rows store = All (EntryIsLive iso rows) (laws.contents store)

  sync-Awaits :
      (memory : TravelMemory) (rest rows : List TravelMemory) (store : S)
      → (find_memory memory.id rows ≡ some memory) ⊎ (any_of (same_place memory) rest ≡ true)
      → All (Awaits iso (memory ∷ rest) rows) (laws.contents store)
      → All (Awaits iso rest rows) (laws.contents (sync backend iso memory store))
  unfolding sync
  sync-Awaits memory rest rows store covered h =
      let others = without-Awaits iso memory rest rows (laws.contents store) h in
      elim (Bool-cases (is_deleted memory.status)) [
        | inl gone ↦
            let (after, e) = deletes memory.user_id memory.id store in
            let went : sync backend iso memory store ≡ after =
              ap (λ o. or_default o store) (if_true _ _ gone ∙ e) in
            subst (λ s. All (Awaits iso rest rows) (laws.contents s)) (sym went)
              (subst (All (Awaits iso rest rows))
                (sym (laws.delete-contents memory.user_id memory.id e)) others)
        | inr alive ↦
            let value = store_value iso memory in
            let (after, e) = puts memory.user_id memory.id value store in
            let went : sync backend iso memory store ≡ after =
              ap (λ o. or_default o store) (if_false _ _ alive ∙ e) in
            let new : Entry = record { user_id = memory.user_id; key = memory.id; value = value } in
            let first : Awaits iso rest rows new = elim covered [
              | inl found ↦ inr (memory, found, refl, alive, refl)
              | inr later ↦ inl later
            ] in
            subst (λ s. All (Awaits iso rest rows) (laws.contents s)) (sym went)
              (subst (All (Awaits iso rest rows))
                (sym (laws.put-contents memory.user_id memory.id value e)) (first, others))
      ]

  pub sync_all-StoreIsLive :
      (memories rows : List TravelMemory) (store : S)
      → Covered rows memories
      → All (Awaits iso memories rows) (laws.contents store)
      → StoreIsLive rows (sync_all backend iso memories store)
  unfolding sync_all
  sync_all-StoreIsLive [] rows store c h = All-imp (laws.contents store) settle h
    where
      settle : (entry : Entry) → Awaits iso [] rows entry → EntryIsLive iso rows entry
      settle entry (inl never) = absurd (ground (arith, never))
      settle entry (inr live) = live
  sync_all-StoreIsLive (memory ∷ rest) rows store c h =
      sync_all-StoreIsLive rest rows (sync backend iso memory store) c.1
        (sync-Awaits memory rest rows store c.0 h)

  pub put-StoreIsLive :
      (old changed : TravelMemory) (rows : List TravelMemory) (store : S)
      → find_memory changed.id rows ≡ some old
      → changed.user_id ≡ old.user_id
      → StoreIsLive rows store
      → StoreIsLive (put_memory changed rows) (sync backend iso changed store)
  unfolding sync_all
  put-StoreIsLive old changed rows store found owner h =
      sync_all-StoreIsLive (changed ∷ []) (put_memory changed rows) store
        (put-Covered old changed [] rows found owner tt)
        (All-imp (laws.contents store)
          (λ entry live. put-Awaits iso old changed [] rows entry found owner (inr live)) h)

  pub append-StoreIsLive :
      (new : TravelMemory) (rows : List TravelMemory) (store : S)
      → clashes new rows ≡ false
      → StoreIsLive rows store
      → StoreIsLive (rows ++ new ∷ []) (sync backend iso new store)
  unfolding sync_all
  append-StoreIsLive new rows store free h =
      sync_all-StoreIsLive (new ∷ []) (rows ++ new ∷ []) store (append-Covered new [] rows free tt)
        (All-imp (laws.contents store)
          (λ entry live. append-Awaits iso new [] rows entry (inr live)) h)
