-- ===== src/Examples/ListedStore.antt =====
-- A Store of memories that is a list of entries.
use diy_agent.Prelude.{
  ℕ, ◌≡◌, ◌==◌, ◌&&◌, Bool, true, some, List, [], ◌∷◌, All, All-imp, take, inl, inr, arith, ap,
  All-take, Bool-cases, if_true, if_false, if◌then◌else◌, subst, sym,
}
use diy_agent.Memory.Rows.{MemoryStatus, is_confirmed, is_candidate, is_deleted}
use diy_agent.Memory.Backend.{
  StoreValue, MemoryStoreBackend, BackendLaws, Entry, IsIn, without_entry,
}

abbrev same_status : MemoryStatus → StoreValue → Bool
same_status MemoryStatus.confirmed value = is_confirmed value.status
same_status MemoryStatus.candidate value = is_candidate value.status
same_status MemoryStatus.deleted value = is_deleted value.status

abbrev values_of : ℕ → MemoryStatus → List Entry → List StoreValue
values_of user_id status [] = []
values_of user_id status (entry ∷ rest) =
    let later = values_of user_id status rest in
    if entry.user_id == user_id && same_status status (entry.value)
    then entry.value ∷ later
    else later

abbrev pub listed : MemoryStoreBackend (List Entry)
listed = record {
  put = λ user_id key value s.
      some (record { user_id = user_id; key = key; value = value } ∷ without_entry user_id key s);
  delete = λ user_id key s. some (without_entry user_id key s);
  search = λ user_id status limit s. some (take limit (values_of user_id status s));
}

same_status-eq :
    (status : MemoryStatus) (value : StoreValue)
    → same_status status value ≡ true
    → value.status ≡ status
same_status-eq MemoryStatus.confirmed value h = ground arith
same_status-eq MemoryStatus.candidate value h = ground arith
same_status-eq MemoryStatus.deleted value h = ground arith

entry-IsIn :
    (user_id : ℕ) (status : MemoryStatus) (entry : Entry) (rest : List Entry)
    → (entry.user_id == user_id && same_status status (entry.value)) ≡ true
    → (entry.value.status ≡ status)
      × ((key : ℕ) × IsIn
            (record { user_id = user_id; key = key; value = entry.value })
            (entry ∷ rest))
entry-IsIn user_id status entry rest h =
    let owner : entry.user_id ≡ user_id = ground arith in
    (
      same_status-eq status (entry.value) (ground arith),
      (
        entry.key,
        inl (ap (λ u. record { user_id = u; key = entry.key; value = entry.value }) (sym owner)),
      ),
    )

values_of-IsIn :
    (user_id : ℕ) (status : MemoryStatus) (entries : List Entry)
    → All
        (λ value.
          (value.status ≡ status)
          × ((key : ℕ) × IsIn (record { user_id = user_id; key = key; value = value }) entries))
        (values_of user_id status entries)
values_of-IsIn user_id status [] = tt
values_of-IsIn user_id status (entry ∷ rest) =
    let later =
      All-imp (values_of user_id status rest) (λ value held. (held.0, (held.1.0, inr held.1.1)))
        (values_of-IsIn user_id status rest) in
    elim (Bool-cases (entry.user_id == user_id && same_status status (entry.value))) [
      | inl fits ↦
          subst (All _) (sym (if_true _ _ fits)) (entry-IsIn user_id status entry rest fits, later)
      | inr other ↦ subst (All _) (sym (if_false _ _ other)) later
    ]

pub listed-search :
    (user_id : ℕ) (status : MemoryStatus) (limit : ℕ) (s : List Entry) (found : List StoreValue)
    → take limit (values_of user_id status s) ≡ found
    → All
        (λ value.
          (value.status ≡ status)
          × ((key : ℕ) × IsIn (record { user_id = user_id; key = key; value = value }) s))
        found
listed-search user_id status limit s found e =
    subst (All _) e
      (All-take _ limit (values_of user_id status s) (values_of-IsIn user_id status s))

-- The list behaves as the Store documents.
abbrev pub listed-BackendLaws : BackendLaws (List Entry) listed
listed-BackendLaws = record {
  contents = λ s. s;
  put-contents = λ user_id key value e. cc (sym e);
  delete-contents = λ user_id key e. cc (sym e);
  search-contents = λ user_id status limit e. listed-search user_id status limit _ _ (cc e);
}
