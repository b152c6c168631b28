-- ===== src/Context/Selection.antt =====
-- app/context.py: what becomes of the messages of a session.
use mathlib.Core.List.{reverse-append, reverse-reverse, reverse-cons}
use diy_agent.Prelude.{
  ℕ, zero, suc, ◌+◌, ◌-◌, ◌≤◌, ◌<◌, ◌≡◌, ◌⊎◌, inl, inr, refl, sym, ap, ◌∙◌, Option, List, [], ◌∷◌,
  ◌++◌, true, false, ◌&&◌, ltb, leb, max, map, reverse, take, length, length-append, Bool-cases,
  arith,
}
use diy_agent.Models.{Message}
use diy_agent.Context.Tokens.{Encoding, count, truncate}
use diy_agent.Context.Budget.{
  ContextPolicy, message_tokens, select_recent, selected_messages, dropped_messages, fit_history,
}

-- The selection is a part of the messages, from the newest back.
select_recent-prefix :
    (encoding : Option Encoding) (limit budget taken tokens : ℕ) (xs : List Message)
    → (older : List Message) × (select_recent encoding limit budget taken tokens xs ++ older ≡ xs)
unfolding select_recent
select_recent-prefix encoding limit budget taken tokens [] = ([], refl)
select_recent-prefix encoding limit budget taken tokens (m ∷ xs) =
    let total = tokens + count encoding m.content in
    let (older, e) = select_recent-prefix encoding limit budget (suc taken) total xs in
    elim (Bool-cases (leb limit taken)) [
      | inl full ↦ (m ∷ xs, ground arith)
      | inr room ↦ elim (Bool-cases (ltb 0 taken && ltb budget total)) [
        | inl over ↦ (m ∷ xs, ground arith)
        | inr fits ↦ elim (Bool-cases (leb budget total)) [
          | inl last ↦ (xs, ground arith)
          | inr more ↦ (older, ground (arith, e))
        ]
      ]
    ]

take-length : {A : Type 0} (n : ℕ) (xs ys : List A) → n ≡ length xs → take n (xs ++ ys) ≡ xs
take-length zero [] ys e = refl
take-length zero (x ∷ xs) ys e = absurd (omega arith)
take-length (suc n) [] ys e = absurd (omega arith)
take-length (suc n) (x ∷ xs) ys e = ap (◌∷◌ x) (take-length n xs ys (omega arith))

-- Every message that no summary covers yet is either dropped into the summary or selected for the
-- history; nothing is lost, nothing comes twice, and the order stays.
pub dropped_messages-append :
    (encoding : Option Encoding) (policy : ContextPolicy) (budget : ℕ) (unsummarized : List Message)
    → dropped_messages encoding policy budget unsummarized
        ++ selected_messages encoding policy budget unsummarized
      ≡ unsummarized
unfolding dropped_messages selected_messages
dropped_messages-append encoding policy budget xs =
    let picked = select_recent encoding policy.recent_message_limit budget 0 0 (reverse xs) in
    let (older, e) =
      select_recent-prefix encoding policy.recent_message_limit budget 0 0 (reverse xs) in
    let split : xs ≡ reverse older ++ reverse picked =
      sym (reverse-reverse xs) ∙ ap reverse (sym e) ∙ reverse-append picked older in
    let size : length xs - length (reverse picked) ≡ length (reverse older) =
      omega (arith, ap length split, length-append (reverse older) (reverse picked)) in
    ap (λ zs. take (length xs - length (reverse picked)) zs ++ reverse picked) split
    ∙ ap (λ zs. zs ++ reverse picked)
        (take-length (length xs - length (reverse picked)) (reverse older) (reverse picked) size)
    ∙ sym split

module _ (encoding : Option Encoding) where
  message_tokens-append :
      (xs ys : List Message)
      → message_tokens encoding (xs ++ ys) ≡ message_tokens encoding xs + message_tokens encoding ys
  message_tokens-append [] ys = omega arith
  message_tokens-append (x ∷ xs) ys = omega (arith, message_tokens-append xs ys)

  message_tokens-reverse :
      (xs : List Message) → message_tokens encoding (reverse xs) ≡ message_tokens encoding xs
  message_tokens-reverse [] = refl
  message_tokens-reverse (x ∷ xs) =
      ap (message_tokens encoding) (reverse-cons x xs)
      ∙ omega (arith, message_tokens-append (reverse xs) (x ∷ []), message_tokens-reverse xs)

  -- Once a message is taken, further ones are taken within the budget only.
  select_recent-fits :
      (limit budget taken tokens : ℕ) (xs : List Message)
      → 0 < taken
      → tokens ≤ budget
      → tokens + message_tokens encoding (select_recent encoding limit budget taken tokens xs)
        ≤ budget
  unfolding select_recent
  select_recent-fits limit budget taken tokens [] h t = omega arith
  select_recent-fits limit budget taken tokens (m ∷ xs) h t =
      ground
        (arith, select_recent-fits limit budget (suc taken) (tokens + count encoding m.content) xs)

  select_recent-first :
      (limit budget : ℕ) (xs : List Message)
      → (message_tokens encoding (select_recent encoding limit budget 0 0 xs) ≤ budget)
        ⊎ ((m : Message) × (select_recent encoding limit budget 0 0 xs ≡ m ∷ [])
            × (budget < count encoding m.content))
  unfolding select_recent
  select_recent-first limit budget [] = inl (omega arith)
  select_recent-first limit budget (m ∷ xs) =
      let rest = select_recent-fits limit budget 1 (count encoding m.content) xs (omega arith) in
      elim (Bool-cases (leb limit 0)) [
        | inl none_allowed ↦ inl (ground arith)
        | inr room ↦ elim (Bool-cases (leb budget (count encoding m.content))) [
          | inl big ↦ elim (Bool-cases (ltb budget (count encoding m.content))) [
            | inl over ↦ inr (m, ground arith, ground arith)
            | inr exact ↦ inl (ground arith)
          ]
          | inr small ↦ inl (ground (arith, rest))
        ]
      ]

  -- Messages within the budget are all kept, as they are.
  fit_history-all :
      (minimum remaining : ℕ) (xs : List Message)
      → message_tokens encoding xs ≤ remaining
      → fit_history encoding minimum remaining xs
        ≡ (map (λ (m : Message). record { role = m.role; content = m.content }) xs, 0)
  unfolding fit_history
  fit_history-all minimum remaining [] h = refl
  fit_history-all minimum remaining (m ∷ xs) h =
      let rest = fit_history-all minimum (remaining - count encoding m.content) xs (omega arith) in
      let fits : ltb remaining (count encoding m.content) ≡ false = ground arith in
      rw (fits, rest) refl

  fit_history-cut :
      (minimum budget : ℕ) (m : Message)
      → budget < count encoding m.content
      → fit_history encoding minimum budget (m ∷ []) ≡ (
        record { role = m.role; content = truncate encoding m.content (max minimum budget) } ∷ [],
        1,
      )
  unfolding fit_history
  fit_history-cut minimum budget m over =
      let exceeds : ltb budget (count encoding m.content) ≡ true = ground arith in rw exceeds refl

  -- Either the selected messages are within the budget together, and the history is all of them as
  -- they are; or there is a single one that exceeds the budget alone, and the history is its cut
  -- version. No selected message is ever skipped, and at most one is cut.
  pub fit_history-selected :
      (policy : ContextPolicy) (minimum budget : ℕ) (unsummarized : List Message)
      → ((message_tokens encoding (selected_messages encoding policy budget unsummarized) ≤ budget)
          × (fit_history encoding minimum budget
                (selected_messages encoding policy budget unsummarized)
              ≡ (
                map
                    (λ (m : Message). record { role = m.role; content = m.content })
                    (selected_messages encoding policy budget unsummarized),
                0,
              )))
        ⊎ ((m : Message) × (selected_messages encoding policy budget unsummarized ≡ m ∷ [])
            × (budget < count encoding m.content)
            × (fit_history encoding minimum budget
                  (selected_messages encoding policy budget unsummarized)
                ≡ (
                  record {
                    role = m.role;
                    content = truncate encoding m.content (max minimum budget);
                  }
                      ∷ [],
                  1,
                )))
  unfolding selected_messages
  fit_history-selected policy minimum budget xs =
      let limit = policy.recent_message_limit in
      let picked = select_recent encoding limit budget 0 0 (reverse xs) in
      elim (select_recent-first limit budget (reverse xs)) [
        | inl within ↦
            let fits : message_tokens encoding (reverse picked) ≤ budget =
              omega (arith, message_tokens-reverse picked, within) in
            inl (fits, fit_history-all minimum budget (reverse picked) fits)
        | inr (m, alone, over) ↦
            let one : reverse picked ≡ m ∷ [] = ap reverse alone in
            inr (
              m,
              one,
              over,
              ap (fit_history encoding minimum budget) one ∙ fit_history-cut minimum budget m over,
            )
      ]
