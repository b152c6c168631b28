-- ===== src/Memory/Ranked.antt =====
-- app/memory.py: what the queries, the ranking and the sorting of `recall` keep.
use diy_agent.Prelude.{
  ℕ, ◌≡◌, refl, sym, subst, ◌∙◌, String, none, some, List, [], ◌∷◌, true, false, ◌==◌, ==_iff, str,
  inl, inr, arith, All, All-imp, All-keep, All-take, map, Bool-cases, if_true, if_false, keep_if,
  text_eq, ltb,
}
use diy_agent.Memory.Texts.{TextRuntime, clean_content}
use diy_agent.Memory.Rows.{TravelMemory, is_confirmed, find_memory}
use diy_agent.Memory.Backend.{IsoFormat, StoreValue, store_value, print_time, Entry, IsIn}
use diy_agent.Memory.Recall.{
  recall_records, is_recallable, is_current, most_recent, insert_recent, Ranked, rank_values,
  rank_less, insert_ranked, best_first,
}
use diy_agent.Memory.Writes.{RowsAreUnique, clash-find_memory}

-- Every row of a table without doubles is the one that is found by its identifier.
pub All-found :
    (rows : List TravelMemory)
    → RowsAreUnique rows
    → All (λ (row : TravelMemory). find_memory row.id rows ≡ some row) rows
All-found [] u = tt
All-found (head ∷ rows) u = (
  if_true _ _ ((==_iff head.id head.id).1 refl),
  All-imp rows
      (λ row found. elim (Bool-cases (head.id == row.id)) [
        | inr apart ↦ if_false _ _ apart ∙ found
        | inl same ↦
            let gone =
              subst (λ k. find_memory k rows ≡ none) ((==_iff head.id row.id).0 same)
                (clash-find_memory head rows u.0) in
            absurd (ground (arith, gone, found))
      ])
      (All-found rows u.1),
)

insert_recent-All :
    (P : TravelMemory → Type 0) (memory : TravelMemory) (rows : List TravelMemory)
    → P memory
    → All P rows
    → All P (insert_recent memory rows)
insert_recent-All P memory [] p h = (p, tt)
insert_recent-All P memory (other ∷ rest) p h =
    elim (Bool-cases (ltb memory.updated_at other.updated_at)) [
      | inl later ↦
          subst (All P) (sym (if_true _ _ later)) (h.0, insert_recent-All P memory rest p h.1)
      | inr first ↦ subst (All P) (sym (if_false _ _ first)) (p, h)
    ]

most_recent-All :
    (P : TravelMemory → Type 0) (rows : List TravelMemory) → All P rows → All P (most_recent rows)
most_recent-All P [] h = tt
most_recent-All P (memory ∷ rest) h =
    insert_recent-All P memory (most_recent rest) h.0 (most_recent-All P rest h.1)

-- What `recall` selects are confirmed rows of the user.
pub recall_records-found :
    (rows : List TravelMemory) (user_id now : ℕ)
    → RowsAreUnique rows
    → All
        (λ (row : TravelMemory).
          (find_memory row.id rows ≡ some row)
          × (row.user_id ≡ user_id)
          × (is_confirmed row.status ≡ true))
        (recall_records rows user_id now)
unfolding recall_records
recall_records-found rows user_id now u =
    All-take _ 100 (most_recent (keep_if (is_recallable user_id now) rows)) (
      most_recent-All _ (keep_if (is_recallable user_id now) rows) (
        All-imp (keep_if (is_recallable user_id now) rows)
          (λ row both.
            let (found, fits) = both in
            let mine : row.user_id ≡ user_id = ground arith in
            let sure : is_confirmed row.status ≡ true = ground arith in (found, mine, sure))
          (All-keep _ (is_recallable user_id now) rows (All-found rows u))))

pub All-IsIn :
    (P : Entry → Type 0) (entries : List Entry) (entry : Entry)
    → All P entries
    → IsIn entry entries
    → P entry
All-IsIn P [] entry h never = elim never [ ]
All-IsIn P (other ∷ rest) entry h (inl same) = subst P (sym same) h.0
All-IsIn P (other ∷ rest) entry h (inr later) = All-IsIn P rest entry h.1 later

pub All-map :
    {A B : Type 0} (P : B → Type 0) (f : A → B) (xs : List A)
    → All (λ x. P (f x)) xs
    → All P (map f xs)
All-map P f [] h = tt
All-map P f (x ∷ xs) h = (h.0, All-map P f xs h.1)

insert_ranked-All :
    (P : Ranked → Type 0) (entry : Ranked) (others : List Ranked)
    → P entry
    → All P others
    → All P (insert_ranked entry others)
insert_ranked-All P entry [] p h = (p, tt)
insert_ranked-All P entry (other ∷ rest) p h = elim (Bool-cases (rank_less entry other)) [
  | inl worse ↦ subst (All P) (sym (if_true _ _ worse)) (h.0, insert_ranked-All P entry rest p h.1)
  | inr better ↦ subst (All P) (sym (if_false _ _ better)) (p, h)
]

pub best_first-All : (P : Ranked → Type 0) (xs : List Ranked) → All P xs → All P (best_first xs)
best_first-All P [] h = tt
best_first-All P (entry ∷ rest) h =
    insert_ranked-All P entry (best_first rest) h.0 (best_first-All P rest h.1)

-- A text that is that of a value of which `V` holds, and that is neither expired nor empty.
abbrev pub Recalls : TextRuntime → IsoFormat → ℕ → (StoreValue → Type 0) → String → Type 0
Recalls rt iso now V text =
    (value : StoreValue) × V value
    × (is_current iso now value.expires_at ≡ true)
    × (text ≡ clean_content rt (str value.content))
    × (text_eq text "" ≡ false)

pub rank_values-All :
    (rt : TextRuntime) (iso : IsoFormat) (now : ℕ) (query_tokens : List String)
    (V : StoreValue → Type 0) (values : List StoreValue)
    → All V values
    → All
        (λ (entry : Ranked). Recalls rt iso now V entry.content)
        (rank_values rt iso now query_tokens values)
unfolding rank_values
rank_values-All rt iso now query_tokens V [] h = tt
rank_values-All rt iso now query_tokens V (value ∷ rest) h =
    let later = rank_values-All rt iso now query_tokens V rest h.1 in
    let content = clean_content rt (str value.content) in
    elim (Bool-cases (text_eq content "")) [
      | inl empty ↦ subst (All _) (sym (if_true _ _ empty)) later
      | inr full ↦
          subst (All _) (sym (if_false _ _ full))
            (elim (Bool-cases (is_current iso now value.expires_at)) [
              | inl current ↦
                  subst (All _) (sym (if_true _ _ current))
                    ((value, h.0, current, refl, full), later)
              | inr past ↦ subst (All _) (sym (if_false _ _ past)) later
            ])
    ]

-- A value is that of a confirmed row of the user.
abbrev pub IsOfRow : IsoFormat → List TravelMemory → ℕ → StoreValue → Type 0
IsOfRow iso rows user_id value =
    (key : ℕ) × (row : TravelMemory) × (find_memory key rows ≡ some row)
    × (row.user_id ≡ user_id)
    × (is_confirmed row.status ≡ true)
    × (value ≡ store_value iso row)

-- A text is the content of a row of the user that is in the table, confirmed and not expired.
abbrev pub IsRecalled : TextRuntime → IsoFormat → List TravelMemory → ℕ → ℕ → String → Type 0
IsRecalled rt iso rows user_id now text =
    (key : ℕ) × (row : TravelMemory) × (find_memory key rows ≡ some row)
    × (row.user_id ≡ user_id)
    × (is_confirmed row.status ≡ true)
    × (is_current iso now (print_time iso row.expires_at) ≡ true)
    × (text ≡ clean_content rt (str row.content))
    × (text_eq text "" ≡ false)
