-- ===== src/Memory/Held.antt =====
-- app/memory.py: what the Store holds of the rows, before and after the memories of a call are
-- put there.
use diy_agent.Prelude.{
  ◌≡◌, ◌⊎◌, inl, inr, sym, ap, ◌∙◌, some, List, [], ◌∷◌, ◌++◌, Bool, true, false, ◌==◌, ◌&&◌,
  ==_iff, any_of, arith, Bool-cases,
}
use diy_agent.Prelude.Tables.{any_of-append}
use diy_agent.Memory.Rows.{TravelMemory, is_deleted, find_memory, clashes, put_memory}
use diy_agent.Memory.Backend.{IsoFormat, store_value, Entry, is_at}
use diy_agent.Memory.Writes.{
  find_memory-append, find_memory-added, find_memory-put_other, find_memory-put_same,
}

-- An entry of the Store is of a row of its user that is not deleted, and its value is that row's.
abbrev pub EntryIsLive : IsoFormat → List TravelMemory → Entry → Type 0
EntryIsLive iso rows entry =
    (row : TravelMemory) × (find_memory entry.key rows ≡ some row)
    × (row.user_id ≡ entry.user_id)
    × (is_deleted row.status ≡ false)
    × (entry.value ≡ store_value iso row)

-- One of the memories that are still to be put into the Store is that of the entry.
abbrev pub awaits : List TravelMemory → Entry → Bool
awaits memories entry = any_of (λ (m : TravelMemory). is_at m.user_id m.id entry) memories

abbrev pub Awaits : IsoFormat → List TravelMemory → List TravelMemory → Entry → Type 0
Awaits iso memories rows entry = (awaits memories entry ≡ true) ⊎ EntryIsLive iso rows entry

abbrev pub same_place : TravelMemory → TravelMemory → Bool
same_place memory later = memory.user_id == later.user_id && memory.id == later.id

-- Every memory that goes to the Store is its row, or a later one of them takes its place.
abbrev pub Covered : List TravelMemory → List TravelMemory → Type 0
Covered rows [] = Unit
Covered rows (memory ∷ rest) =
    ((find_memory memory.id rows ≡ some memory) ⊎ (any_of (same_place memory) rest ≡ true))
    × Covered rows rest

module _ {A : Type 0} (test : A → Bool) where
  any_of-before : (xs : List A) (x : A) → any_of test xs ≡ true → any_of test (xs ++ x ∷ []) ≡ true
  any_of-before xs x h = ground (arith, any_of-append test xs (x ∷ []), h)

  any_of-last : (xs : List A) (x : A) → test x ≡ true → any_of test (xs ++ x ∷ []) ≡ true
  any_of-last xs x h = ground (arith, any_of-append test xs (x ∷ []), h)

pub append-Awaits :
    (iso : IsoFormat) (new : TravelMemory) (memories rows : List TravelMemory) (entry : Entry)
    → Awaits iso memories rows entry
    → Awaits iso (memories ++ new ∷ []) (rows ++ new ∷ []) entry
append-Awaits iso new memories rows entry (inl at) = inl (any_of-before _ memories new at)
append-Awaits iso new memories rows entry (inr (row, found, mine, alive, same)) =
    inr (row, find_memory-append entry.key rows (new ∷ []) found, mine, alive, same)

pub put-Awaits :
    (iso : IsoFormat) (old changed : TravelMemory) (memories rows : List TravelMemory)
    (entry : Entry)
    → find_memory changed.id rows ≡ some old
    → changed.user_id ≡ old.user_id
    → Awaits iso memories rows entry
    → Awaits iso (memories ++ changed ∷ []) (put_memory changed rows) entry
put-Awaits iso old changed memories rows entry found owner (inl at) =
    inl (any_of-before _ memories changed at)
put-Awaits iso old changed memories rows entry found owner (inr (row, there, mine, alive, value)) =
    elim (Bool-cases (changed.id == entry.key)) [
      | inr apart ↦
          inr (row, find_memory-put_other entry.key changed rows apart ∙ there, mine, alive, value)
      | inl it ↦
          let e : changed.id ≡ entry.key = (==_iff changed.id entry.key).0 it in
          let same : row ≡ old = cc (sym there ∙ ap (λ k. find_memory k rows) (sym e) ∙ found) in
          let user : row.user_id ≡ old.user_id = ap (λ (m : TravelMemory). m.user_id) same in
          inl (any_of-last _ memories changed (ground arith))
    ]

pub append-Covered :
    (new : TravelMemory) (memories rows : List TravelMemory)
    → clashes new rows ≡ false
    → Covered rows memories
    → Covered (rows ++ new ∷ []) (memories ++ new ∷ [])
append-Covered new [] rows free h = (inl (find_memory-added new rows free), tt)
append-Covered new (memory ∷ rest) rows free (inl found, h) =
    (inl (find_memory-append memory.id rows (new ∷ []) found), append-Covered new rest rows free h)
append-Covered new (memory ∷ rest) rows free (inr later, h) =
    (inr (any_of-before _ rest new later), append-Covered new rest rows free h)

pub put-Covered :
    (old changed : TravelMemory) (memories rows : List TravelMemory)
    → find_memory changed.id rows ≡ some old
    → changed.user_id ≡ old.user_id
    → Covered rows memories
    → Covered (put_memory changed rows) (memories ++ changed ∷ [])
put-Covered old changed [] rows found owner h =
    (inl (find_memory-put_same changed old rows found), tt)
put-Covered old changed (memory ∷ rest) rows found owner (inr later, h) =
    (inr (any_of-before _ rest changed later), put-Covered old changed rest rows found owner h)
put-Covered old changed (memory ∷ rest) rows found owner (inl there, h) = (
  elim (Bool-cases (changed.id == memory.id)) [
    | inr apart ↦ inl (find_memory-put_other memory.id changed rows apart ∙ there)
    | inl it ↦
        let e : changed.id ≡ memory.id = (==_iff changed.id memory.id).0 it in
        let same : memory ≡ old = cc (sym there ∙ ap (λ k. find_memory k rows) (sym e) ∙ found) in
        let user : memory.user_id ≡ old.user_id = ap (λ (m : TravelMemory). m.user_id) same in
        inr (any_of-last _ rest changed (ground arith))
  ],
  put-Covered old changed rest rows found owner h,
)
