-- ===== src/Context/Budget.antt =====
-- app/context.py: the token budgets, and which messages they admit. Where the code takes the
-- maximum of a difference and a number that is not negative, the difference stops at 0 here.
use diy_agent.Prelude.{
  ℕ, suc, ◌+◌, ◌-◌, ◌/◌, max, min, String, Option, List, [], ◌∷◌, ◌&&◌, ◌||◌, not, ltb, leb, length,
  take, reverse, text_eq, or_default, if◌then◌else◌,
}
use diy_agent.Models.{Message, MessageRole}
use diy_agent.Context.Tokens.{Encoding, count, truncate}

-- `ContextPolicy`
pub record ContextPolicy : Type 0 where
  pub max_input_tokens : ℕ
  pub system_reserved_tokens : ℕ
  pub tool_reserved_tokens : ℕ
  pub output_reserved_tokens : ℕ
  pub recent_message_limit : ℕ
  pub summary_max_tokens : ℕ
  pub long_term_memory_max_tokens : ℕ
  pub minimum_recent_tokens : ℕ

-- `ContextMessage`
pub record ContextMessage : Type 0 where
  pub role : MessageRole
  pub content : String

-- `sum(token_counter.count(message.content) for message in messages)`
abbrev pub message_tokens : Option Encoding → List Message → ℕ
message_tokens encoding [] = 0
message_tokens encoding (message ∷ rest) =
    count encoding message.content + message_tokens encoding rest

abbrev pub history_size : Option Encoding → List ContextMessage → ℕ
history_size encoding [] = 0
history_size encoding (message ∷ rest) = count encoding message.content + history_size encoding rest

-- `history_budget`
unfoldable pub history_budget : ContextPolicy → ℕ → ℕ → ℕ
history_budget policy current_tokens memory_tokens = max policy.minimum_recent_tokens (
    policy.max_input_tokens - policy.system_reserved_tokens - policy.tool_reserved_tokens
    - current_tokens - memory_tokens)

-- `summary_budget`, from `needs_summary_space`
unfoldable pub summary_budget :
    Option Encoding → ContextPolicy → Option String → List Message → ℕ → ℕ
summary_budget encoding policy summary unsummarized budget =
    if not (text_eq (or_default summary "") "")
      || (ltb policy.recent_message_limit (length unsummarized)
          || ltb budget (message_tokens encoding unsummarized))
    then min policy.summary_max_tokens (max 64 (budget / 3))
    else 0

-- `recent_budget`
unfoldable pub recent_budget : ContextPolicy → ℕ → ℕ → ℕ
recent_budget policy budget for_summary = max policy.minimum_recent_tokens (budget - for_summary)

-- The loop that selects recent messages, from the newest back: `taken` of them with `tokens`
-- tokens so far.
unfoldable pub select_recent : Option Encoding → ℕ → ℕ → ℕ → ℕ → List Message → List Message
select_recent encoding limit budget taken tokens [] = []
select_recent encoding limit budget taken tokens (message ∷ older) =
    let total = tokens + count encoding message.content in
    let more = select_recent encoding limit budget (suc taken) total older in
    if leb limit taken
    then []
    else if ltb 0 taken && ltb budget total
    then []
    else if leb budget total
    then message ∷ []
    else message ∷ more

-- `selected`, in the order of the session
unfoldable pub selected_messages : Option Encoding → ContextPolicy → ℕ → List Message → List Message
unfolding select_recent
selected_messages encoding policy budget unsummarized =
    reverse (select_recent encoding policy.recent_message_limit budget 0 0 (reverse unsummarized))

-- `dropped`
unfoldable pub dropped_messages : Option Encoding → ContextPolicy → ℕ → List Message → List Message
unfolding selected_messages
dropped_messages encoding policy budget unsummarized =
    take (length unsummarized - length (selected_messages encoding policy budget unsummarized))
      unsummarized

-- The loop that fits the selection into the budget: the history and the number of cut messages.
unfoldable pub fit_history : Option Encoding → ℕ → ℕ → List Message → List ContextMessage × ℕ
fit_history encoding minimum remaining [] = ([], 0)
fit_history encoding minimum remaining (message ∷ rest) =
    let tokens = count encoding message.content in
    let cut = truncate encoding message.content (max minimum remaining) in
    let skipped = fit_history encoding minimum remaining rest in
    let whole = fit_history encoding minimum (remaining - tokens) rest in
    if ltb remaining tokens
    then elim rest [
      | [] ↦ (record { role = message.role; content = cut } ∷ [], 1)
      | _ ∷ _ ↦ skipped
    ]
    else (record { role = message.role; content = message.content } ∷ whole.0, whole.1)
