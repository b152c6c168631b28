-- ===== src/Context/Cursor.antt =====
-- app/context.py: the summary's cursor from one turn of a session to the next.
use mathlib.Core.List.{append_assoc}
use diy_agent.Prelude.{
  ℕ, ◌≡◌, refl, sym, ap, subst, ◌∙◌, String, Option, none, some, List, [], ◌∷◌, ◌++◌, true, false,
  ◌==◌, All, is_some, Option-cases, Bool-cases, inl, inr, arith,
}
use diy_agent.Models.{AgentSession, Message}
use diy_agent.Context.Tokens.{Encoding}
use diy_agent.Context.Budget.{ContextPolicy, selected_messages, dropped_messages}
use diy_agent.Context.Prepare.{messages_after, unsummarized_messages, last_id, advance_summary}
use diy_agent.Context.Selection.{dropped_messages-append}

-- No two messages have the same identifier.
abbrev pub DistinctIds : List Message → Type 0
DistinctIds [] = Unit
DistinctIds (m ∷ ms) = All (λ o. (o.id == m.id) ≡ false) ms × DistinctIds ms

-- The cursor is unset, or on one of the messages.
abbrev pub CursorIsValid : Option ℕ → List Message → Type 0
CursorIsValid none ms = Unit
CursorIsValid (some cursor) ms = is_some (messages_after cursor ms) ≡ true

at_middle :
    (P : Message → Type 0) (xs : List Message) (m : Message) (rest : List Message)
    → All P (xs ++ m ∷ rest)
    → P m
at_middle P [] m rest h = h.0
at_middle P (x ∷ xs) m rest h = at_middle P xs m rest h.1

messages_after-middle :
    (xs : List Message) (m : Message) (rest : List Message)
    → DistinctIds (xs ++ m ∷ rest)
    → messages_after m.id (xs ++ m ∷ rest) ≡ some rest
unfolding messages_after
messages_after-middle [] m rest d = ground arith
messages_after-middle (x ∷ xs) m rest d =
    let apart : (m.id == x.id) ≡ false = at_middle (λ o. (o.id == x.id) ≡ false) xs m rest d.0 in
    ground (arith, messages_after-middle xs m rest d.1)

messages_after-append :
    (cursor : ℕ) (xs more : List Message) {ys : List Message}
    → messages_after cursor xs ≡ some ys
    → messages_after cursor (xs ++ more) ≡ some (ys ++ more)
unfolding messages_after
messages_after-append cursor [] more h = absurd (ground arith)
messages_after-append cursor (x ∷ xs) more {ys} h =
    ground (arith, messages_after-append cursor xs more {ys = ys})

messages_after-suffix :
    (cursor : ℕ) (xs : List Message) {ys : List Message}
    → messages_after cursor xs ≡ some ys
    → (before : List Message) × (xs ≡ before ++ ys)
unfolding messages_after
messages_after-suffix cursor [] h = absurd (ground arith)
messages_after-suffix cursor (x ∷ xs) {ys} h = elim (Bool-cases (x.id == cursor)) [
  | inl hit ↦ (x ∷ [], ground arith)
  | inr miss ↦
      let (before, e) = messages_after-suffix cursor xs {ys = ys} (ground arith) in
      (x ∷ before, ap (◌∷◌ x) e)
]

-- What a valid cursor leaves, also when more messages came.
unsummarized-suffix :
    (cursor : Option ℕ) (xs : List Message)
    → CursorIsValid cursor xs
    → (before : List Message) × (xs ≡ before ++ unsummarized_messages cursor xs)
unfolding unsummarized_messages
unsummarized-suffix none xs v = ([], refl)
unsummarized-suffix (some cursor) xs v = elim (Option-cases (messages_after cursor xs)) [
  | inl missing ↦ absurd (ground arith)
  | inr (ys, found) ↦
      let (before, e) = messages_after-suffix cursor xs {ys = ys} found in (before, rw found e)
]

unsummarized-append :
    (cursor : Option ℕ) (xs more : List Message)
    → CursorIsValid cursor xs
    → unsummarized_messages cursor (xs ++ more) ≡ unsummarized_messages cursor xs ++ more
unfolding unsummarized_messages
unsummarized-append none xs more v = refl
unsummarized-append (some cursor) xs more v = elim (Option-cases (messages_after cursor xs)) [
  | inl missing ↦ absurd (ground arith)
  | inr (ys, found) ↦ rw (found, messages_after-append cursor xs more {ys = ys} found) refl
]

-- A cursor on the last of some messages leaves what follows them.
unsummarized-last :
    (before : List Message) (m : Message) (ms rest : List Message)
    → DistinctIds (before ++ ((m ∷ ms) ++ rest))
    → unsummarized_messages (last_id (m ∷ ms)) (before ++ ((m ∷ ms) ++ rest)) ≡ rest
unfolding unsummarized_messages
unsummarized-last before m [] rest d = rw (messages_after-middle before m rest d) refl
unsummarized-last before m (o ∷ ms) rest d =
    let move : before ++ ((m ∷ o ∷ ms) ++ rest) ≡ (before ++ m ∷ []) ++ ((o ∷ ms) ++ rest) =
      sym (append_assoc before (m ∷ []) ((o ∷ ms) ++ rest)) in
    ap (unsummarized_messages (last_id (o ∷ ms))) move
    ∙ unsummarized-last (before ++ m ∷ []) o ms rest (subst DistinctIds move d)

module _ (squeeze : String → String) (encoding : Option Encoding) (policy : ContextPolicy)
    (conversation : AgentSession) (previous more : List Message) where
  advance-splits :
      (dropped selected : List Message) (for_summary now : ℕ)
      → CursorIsValid conversation.summary_through_message_id previous
      → DistinctIds (previous ++ more)
      → dropped ++ selected ≡ unsummarized_messages conversation.summary_through_message_id previous
      → unsummarized_messages
          (advance_summary squeeze encoding conversation dropped for_summary
            now).summary_through_message_id
          (previous ++ more)
        ≡ selected ++ more
  unfolding advance_summary
  advance-splits [] selected for_summary now v d e =
      unsummarized-append conversation.summary_through_message_id previous more v
      ∙ ap (λ zs. zs ++ more) (sym e)
  advance-splits (m ∷ ms) selected for_summary now v d e =
      let (before, split) =
        unsummarized-suffix conversation.summary_through_message_id previous v in
      let whole : previous ++ more ≡ before ++ ((m ∷ ms) ++ (selected ++ more)) =
        ap (λ zs. zs ++ more) (split ∙ ap (λ zs. before ++ zs) (sym e))
        ∙ append_assoc before ((m ∷ ms) ++ selected) more
        ∙ ap (λ zs. before ++ zs) (append_assoc (m ∷ ms) selected more) in
      ap (unsummarized_messages (last_id (m ∷ ms))) whole
      ∙ unsummarized-last before m ms (selected ++ more) (subst DistinctIds whole d)

  -- When the next turn of a session reads its messages, with any number of new ones behind, the
  -- messages that no summary covers are exactly those that this turn kept for the history, and the
  -- new ones: a dropped message is summarised once, and a kept one is not taken for summarised.
  pub advance_summary-cursor :
      (budget for_summary now : ℕ)
      → CursorIsValid conversation.summary_through_message_id previous
      → DistinctIds (previous ++ more)
      → unsummarized_messages
          (advance_summary squeeze encoding conversation
            (dropped_messages encoding policy budget
              (unsummarized_messages conversation.summary_through_message_id previous))
            for_summary
            now).summary_through_message_id
          (previous ++ more)
        ≡ selected_messages encoding policy budget
            (unsummarized_messages conversation.summary_through_message_id previous)
          ++ more
  advance_summary-cursor budget for_summary now v d = advance-splits _ _ for_summary now v d (
      dropped_messages-append encoding policy budget
        (unsummarized_messages conversation.summary_through_message_id previous))
