-- ===== src/Memory/Service/Listing.antt =====
-- app/memory.py: `list_for_user` and `counts_for_user`.
use diy_agent.Prelude.{
  ℕ, ◌-◌, ◌*◌, List, [], ◌∷◌, Bool, ◌&&◌, ◌||◌, ltb, ◌==◌, keep_if, take, drop, length,
  if◌then◌else◌,
}
use diy_agent.Memory.Rows.{MemoryStatus, TravelMemory, is_confirmed, is_candidate}

-- The statuses that `list_for_user` selects.
abbrev pub is_listed : Bool → MemoryStatus → Bool
is_listed include_candidates status =
    is_confirmed status || include_candidates && is_candidate status

-- `ORDER BY updated_at DESC, id`
abbrev pub listed_before : TravelMemory → TravelMemory → Bool
listed_before a b = ltb b.updated_at a.updated_at || a.updated_at == b.updated_at && ltb a.id b.id

abbrev pub insert_listed : TravelMemory → List TravelMemory → List TravelMemory
insert_listed memory [] = memory ∷ []
insert_listed memory (other ∷ rest) =
    let later = insert_listed memory rest in
    if listed_before other memory then other ∷ later else memory ∷ other ∷ rest

abbrev pub in_order : List TravelMemory → List TravelMemory
in_order [] = []
in_order (memory ∷ rest) = insert_listed memory (in_order rest)

-- What `list_for_user` selects, before its pages.
unfoldable pub listed_for_user : List TravelMemory → ℕ → Bool → List TravelMemory
listed_for_user rows user_id include_candidates =
    in_order
      (keep_if (λ row. row.user_id == user_id && is_listed include_candidates row.status) rows)

-- `list_for_user`; the first page is 1.
unfoldable pub list_for_user : List TravelMemory → ℕ → Bool → ℕ → ℕ → List TravelMemory
unfolding listed_for_user
list_for_user rows user_id include_candidates page page_size =
    take page_size (drop ((page - 1) * page_size) (listed_for_user rows user_id include_candidates))

-- `counts_for_user`
unfoldable pub counts_for_user : List TravelMemory → ℕ → ℕ × ℕ
counts_for_user rows user_id = (
  length (keep_if (λ row. row.user_id == user_id && is_candidate row.status) rows),
  length (keep_if (λ row. row.user_id == user_id && is_confirmed row.status) rows),
)
