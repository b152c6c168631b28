-- ===== src/Memory/Recall.antt =====
-- app/memory.py: `MemoryService.recall`.
use Prim.Native.String.{compare}
use Prim.Native.Nat.{Ordering}
use diy_agent.Prelude.{
  ℕ, String, Option, none, some, List, [], ◌∷◌, Bool, true, false, ◌&&◌, ◌||◌, ltb, ◌==◌, str,
  text_eq, keep_if, take, map, if◌then◌else◌,
}
use diy_agent.Memory.Texts.{TextRuntime, clean_content, tokens, overlap}
use diy_agent.Memory.Rows.{MemoryStatus, TravelMemory, is_confirmed}
use diy_agent.Memory.Backend.{IsoFormat, StoreValue, store_value, MemoryStoreBackend}
use diy_agent.Memory.Service.{MemoryState, sync_all}

-- `expires_at IS NULL OR expires_at > now`
abbrev pub unexpired : ℕ → Option ℕ → Bool
unexpired now none = true
unexpired now (some time) = ltb now time

-- The rows that the query of `recall` may select.
abbrev pub is_recallable : ℕ → ℕ → TravelMemory → Bool
is_recallable user_id now row =
    row.user_id == user_id && is_confirmed row.status && unexpired now row.expires_at

abbrev pub insert_recent : TravelMemory → List TravelMemory → List TravelMemory
insert_recent memory [] = memory ∷ []
insert_recent memory (other ∷ rest) =
    let later = insert_recent memory rest in
    if ltb memory.updated_at other.updated_at then other ∷ later else memory ∷ other ∷ rest

-- `ORDER BY updated_at DESC`
abbrev pub most_recent : List TravelMemory → List TravelMemory
most_recent [] = []
most_recent (memory ∷ rest) = insert_recent memory (most_recent rest)

-- The query of `recall`.
unfoldable pub recall_records : List TravelMemory → ℕ → ℕ → List TravelMemory
recall_records rows user_id now = take 100 (most_recent (keep_if (is_recallable user_id now) rows))

-- Whether a value of the Store has not expired; a time that cannot be read counts as expired.
abbrev pub is_current : IsoFormat → ℕ → Option String → Bool
is_current iso now none = true
is_current iso now (some text) =
    if text_eq text ""
    then true
    else elim (iso.read text) [ none ↦ false | some time ↦ ltb now time ]

-- An entry of `ranked`.
pub record Ranked : Type 0 where
  pub shared : ℕ
  pub updated_at : String
  pub content : String

-- The loop over the values.
unfoldable pub rank_values :
    TextRuntime → IsoFormat → ℕ → List String → List StoreValue → List Ranked
rank_values rt iso now query_tokens [] = []
rank_values rt iso now query_tokens (value ∷ rest) =
    let later = rank_values rt iso now query_tokens rest in
    let content = clean_content rt (str value.content) in
    if text_eq content ""
    then later
    else if is_current iso now value.expires_at
    then record {
      shared = overlap query_tokens (tokens rt content);
      updated_at = value.updated_at;
      content = content;
    }
      ∷ later
    else later

abbrev pub text_less : String → String → Bool
text_less a b = elim (compare a b) [ Ordering.lt ↦ true | _ ↦ false ]

-- `a < b`, on tuples
abbrev pub rank_less : Ranked → Ranked → Bool
rank_less a b =
    ltb a.shared b.shared
    || a.shared == b.shared
      && (text_less a.updated_at b.updated_at
          || text_eq a.updated_at b.updated_at && text_less a.content b.content)

abbrev pub insert_ranked : Ranked → List Ranked → List Ranked
insert_ranked entry [] = entry ∷ []
insert_ranked entry (other ∷ rest) =
    let later = insert_ranked entry rest in
    if rank_less entry other then other ∷ later else entry ∷ other ∷ rest

-- `ranked.sort(reverse=True)`
abbrev pub best_first : List Ranked → List Ranked
best_first [] = []
best_first (entry ∷ rest) = insert_ranked entry (best_first rest)

module _ {S : Type 0} (backend : MemoryStoreBackend S) (rt : TextRuntime) (iso : IsoFormat) where
  -- The values that `recall` ranks: those of the Store, or of the table where the Store fails.
  unfoldable pub recall_values : List TravelMemory → ℕ → S → List StoreValue
  recall_values records user_id store =
      elim (backend.search user_id MemoryStatus.confirmed 100 store) [
        | some values ↦ values
        | none ↦ map (store_value iso) records
      ]

  -- `recall`
  unfoldable pub recall : ℕ → ℕ → String → ℕ → MemoryState S → List String × MemoryState S
  unfolding recall_values rank_values recall_records sync_all
  recall recall_limit user_id query now state =
      let records = recall_records state.rows user_id now in
      let store = sync_all backend iso records state.store in
      let ranked = rank_values rt iso now (tokens rt query) (recall_values records user_id store) in
      (
        map (λ (entry : Ranked). entry.content) (take recall_limit (best_first ranked)),
        record { rows = state.rows; store = store },
      )
