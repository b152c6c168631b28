-- ===== src/Examples/Contexts.antt =====
-- The context of a session with three messages.
use diy_agent.Prelude.{
  ℕ, suc, some, ◌≡◌, ◌≤◌, ◌<◌, ◌⊎◌, max, refl, none, Option, List, [], ◌∷◌, ◌++◌, map, take_text,
  arith,
}
use diy_agent.Models.{Message, MessageRole}
use diy_agent.Context.Tokens.{Encoding, count, truncate, longest_prefix, truncated_body}
use diy_agent.Context.Budget.{
  ContextPolicy, message_tokens, selected_messages, dropped_messages, fit_history, select_recent,
}
use diy_agent.Context.Prepare.{unsummarized_messages, advance_summary}
use diy_agent.Context.Truncation.{longest_prefix-some, truncated_body-longest}
use diy_agent.Context.Selection.{dropped_messages-append, fit_history-selected}
use diy_agent.Context.Cursor.{advance_summary-cursor}
use diy_agent.Examples.Samples.{trip, question}

abbrev policy : ContextPolicy
policy = record {
  max_input_tokens = 100;
  system_reserved_tokens = 10;
  tool_reserved_tokens = 10;
  output_reserved_tokens = 10;
  recent_message_limit = 2;
  summary_max_tokens = 64;
  long_term_memory_max_tokens = 8;
  minimum_recent_tokens = 16;
}

abbrev reply : Message
reply = record {
  id = 4;
  session_id = 1;
  role = MessageRole.assistant;
  content = "How many days?";
  created_at = 11;
}

abbrev more : Message
more = record {
  id = 8;
  session_id = 1;
  role = MessageRole.user;
  content = "three";
  created_at = 12;
}

abbrev talk : List Message
talk = question ∷ reply ∷ more ∷ []

abbrev counted : Option Encoding
counted = none

-- The oldest message is dropped.
two_are_kept : selected_messages counted policy 50 talk ≡ reply ∷ more ∷ []
unfolding selected_messages select_recent count
two_are_kept = refl

longest_prefix-some_example :
    (n : ℕ) × (longest_prefix counted "Kyoto, Osaka" 2 12 0 12 ≡ some n) × (0 ≤ n) × (n ≤ 12)
longest_prefix-some_example =
    longest_prefix-some counted "Kyoto, Osaka" 2 12 0 12 (omega arith) (omega arith)

dropped_messages-append_example :
    dropped_messages counted policy 50 talk ++ selected_messages counted policy 50 talk ≡ talk
dropped_messages-append_example = dropped_messages-append counted policy 50 talk

fit_history-selected_example :
    ((message_tokens counted (selected_messages counted policy 50 talk) ≤ 50)
      × (fit_history counted 16 50 (selected_messages counted policy 50 talk) ≡ (
        map
            (λ (m : Message). record { role = m.role; content = m.content })
            (selected_messages counted policy 50 talk),
        0,
      )))
    ⊎ ((m : Message) × (selected_messages counted policy 50 talk ≡ m ∷ [])
        × (50 < count counted m.content)
        × (fit_history counted 16 50 (selected_messages counted policy 50 talk)
            ≡ (record { role = m.role; content = truncate counted m.content (max 16 50) } ∷ [], 1)))
fit_history-selected_example = fit_history-selected counted policy 16 50 talk

advance_summary-cursor_example :
    unsummarized_messages
      (advance_summary
        (λ s. s)
        counted
        trip
        (dropped_messages counted policy 50 (unsummarized_messages none (question ∷ reply ∷ [])))
        64
        20).summary_through_message_id
      talk
    ≡ selected_messages counted policy 50 (unsummarized_messages none (question ∷ reply ∷ []))
      ++ more ∷ []
advance_summary-cursor_example =
    advance_summary-cursor (λ s. s) counted policy trip (question ∷ reply ∷ []) (more ∷ []) 50 64 20
      tt ((refl, (refl, tt)), ((refl, tt), (tt, tt)))

truncated_body-longest_example :
    (n : ℕ) × (truncated_body none "Kyoto, Osaka" 2 ≡ take_text n "Kyoto, Osaka")
    × (n ≤ 12)
    × (count none (take_text n "Kyoto, Osaka") ≤ 2)
    × ((n ≡ 12) ⊎ (2 < count none (take_text (suc n) "Kyoto, Osaka")))
truncated_body-longest_example = truncated_body-longest "Kyoto, Osaka" 2

truncated_body_cuts : truncated_body none "Kyoto, Osaka" 2 ≡ "Kyoto, O"
unfolding truncated_body longest_prefix count
truncated_body_cuts = refl
