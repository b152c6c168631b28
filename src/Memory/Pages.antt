-- ===== src/Memory/Pages.antt =====
-- app/memory.py: the pages of `list_for_user` and the counts beside them.
use diy_agent.Prelude.{
  ℕ, zero, suc, ◌+◌, ◌-◌, ◌*◌, ◌≤◌, ◌≡◌, refl, sym, ap, ◌∙◌, List, [], ◌∷◌, ◌++◌, Bool, true, false,
  ◌&&◌, ◌==◌, arith, length, take, drop, keep_if,
}
use diy_agent.Memory.Rows.{TravelMemory, is_candidate, is_confirmed}
use diy_agent.Memory.Service.{
  is_listed, insert_listed, in_order, listed_for_user, list_for_user, counts_for_user,
}

module _ {A : Type 0} where
  take_all : (n : ℕ) (xs : List A) → length xs ≤ n → take n xs ≡ xs
  take_all zero [] h = refl
  take_all zero (x ∷ xs) h = absurd (omega (arith, h))
  take_all (suc n) [] h = refl
  take_all (suc n) (x ∷ xs) h = ap (λ ys. x ∷ ys) (take_all n xs (omega (arith, h)))

  take_none : (n : ℕ) → take {A = A} n [] ≡ []
  take_none zero = refl
  take_none (suc n) = refl

  take-append_drop : (n m : ℕ) (xs : List A) → take n xs ++ take m (drop n xs) ≡ take (n + m) xs
  take-append_drop zero m xs = ap (λ k. take k xs) (omega arith)
  take-append_drop (suc n) m [] = take_none m ∙ sym (take_none (suc n + m))
  take-append_drop (suc n) m (x ∷ xs) =
      ap (λ ys. x ∷ ys) (take-append_drop n m xs)
      ∙ ap (λ k. take k (x ∷ xs)) {x = suc (n + m)} {y = suc n + m} (omega arith)

module _ (rows : List TravelMemory) (user_id : ℕ) (include_candidates : Bool) (page_size : ℕ) where
  -- The first pages, one after the other.
  unfoldable pub first_pages : ℕ → List TravelMemory
  first_pages zero = []
  first_pages (suc n) =
      first_pages n ++ list_for_user rows user_id include_candidates (suc n) page_size

  first_pages-eq-take :
      (n : ℕ)
      → first_pages n ≡ take (n * page_size) (listed_for_user rows user_id include_candidates)
  unfolding first_pages list_for_user
  first_pages-eq-take zero =
      ap (λ k. take k (listed_for_user rows user_id include_candidates)) {x = 0} {y = 0 * page_size}
        (omega arith)
  first_pages-eq-take (suc n) =
      let listed = listed_for_user rows user_id include_candidates in
      ap (λ xs. xs ++ list_for_user rows user_id include_candidates (suc n) page_size)
        (first_pages-eq-take n)
      ∙ ap (λ k. take (n * page_size) listed ++ take page_size (drop (k * page_size) listed))
          {x = suc n - 1} {y = n} (omega arith)
      ∙ take-append_drop (n * page_size) page_size listed
      ∙ ap (λ k. take k listed) (omega arith)

  -- A client that asks for pages 1, 2, 3 and so on until they cover the user's memories has each of
  -- them once, in the order of the whole list.
  pub first_pages-eq-listed_for_user :
      (n : ℕ)
      → length (listed_for_user rows user_id include_candidates) ≤ n * page_size
      → first_pages n ≡ listed_for_user rows user_id include_candidates
  first_pages-eq-listed_for_user n h =
      first_pages-eq-take n
      ∙ take_all (n * page_size) (listed_for_user rows user_id include_candidates) h

length-insert_listed :
    (memory : TravelMemory) (rows : List TravelMemory)
    → length (insert_listed memory rows) ≡ suc (length rows)
length-insert_listed memory [] = refl
length-insert_listed memory (other ∷ rest) = ground (arith, length-insert_listed memory rest)

length-in_order : (rows : List TravelMemory) → length (in_order rows) ≡ length rows
length-in_order [] = refl
length-in_order (memory ∷ rest) =
    length-insert_listed memory (in_order rest) ∙ ap suc (length-in_order rest)

count_candidates :
    (rows : List TravelMemory) (user_id : ℕ)
    → length (keep_if (λ row. row.user_id == user_id && is_candidate row.status) rows)
        + length (keep_if (λ row. row.user_id == user_id && is_confirmed row.status) rows)
      ≡ length (keep_if (λ row. row.user_id == user_id && is_listed true row.status) rows)
count_candidates [] user_id = omega arith
count_candidates (row ∷ rows) user_id = ground (arith, count_candidates rows user_id)

count_confirmed :
    (rows : List TravelMemory) (user_id : ℕ)
    → length (keep_if (λ row. row.user_id == user_id && is_confirmed row.status) rows)
      ≡ length (keep_if (λ row. row.user_id == user_id && is_listed false row.status) rows)
count_confirmed [] user_id = refl
count_confirmed (row ∷ rows) user_id = ground (arith, count_confirmed rows user_id)

-- The two counts that go with the list: together they are as many as the memories of the user
-- that it shows with candidates, and the second alone as many as it shows without.
pub counts_for_user-length :
    (rows : List TravelMemory) (user_id : ℕ)
    → ((counts_for_user rows user_id).0 + (counts_for_user rows user_id).1
        ≡ length (listed_for_user rows user_id true))
      × ((counts_for_user rows user_id).1 ≡ length (listed_for_user rows user_id false))
unfolding counts_for_user listed_for_user
counts_for_user-length rows user_id = (
  count_candidates rows user_id ∙ sym (length-in_order _),
  count_confirmed rows user_id ∙ sym (length-in_order _),
)
