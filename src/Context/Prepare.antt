-- ===== src/Context/Prepare.antt =====
-- app/context.py: `prepare_session_context`.
use diy_agent.Prelude.{
  ℕ, ◌+◌, max, String, Option, none, some, List, [], ◌∷◌, Bool, not, ◌&&◌, ◌||◌, ltb, leb, ◌==◌,
  keep_if, map, length, Python, text_append, text_eq, or_default, if◌then◌else◌,
}
use diy_agent.Schemas.{ContextUsage}
use diy_agent.Models.{AgentSession, Message, Db}
use diy_agent.Store.Tables.{find_session}
use diy_agent.Context.Tokens.{Encoding, count, truncate}
use diy_agent.Context.Summary.{join_lines, summarize}
use diy_agent.Context.Budget.{
  ContextPolicy, ContextMessage, history_size, history_budget, summary_budget, recent_budget,
  selected_messages, dropped_messages, fit_history,
}

-- `PreparedContext`
pub record PreparedContext : Type 0 where
  pub history : List ContextMessage
  pub summary : Option String
  pub long_term_memory : Option String
  pub usage : ContextUsage

-- The two `LookupError`s.
pub data ContextError : Type 0 where
  session_not_found message_not_found : ContextError

pub data ContextResult : Type 0 where
  prepared : PreparedContext → Db → ContextResult
  not_found : ContextError → ContextResult

abbrev pub message_before : Message → Message → Bool
message_before a b =
    ltb a.created_at b.created_at || (a.created_at == b.created_at && leb a.id b.id)

-- `ORDER BY created_at, id`
abbrev pub insert_message : Message → List Message → List Message
insert_message message [] = message ∷ []
insert_message message (other ∷ rest) =
    let further = insert_message message rest in
    if message_before message other then message ∷ other ∷ rest else other ∷ further

abbrev pub by_creation : List Message → List Message
by_creation [] = []
by_creation (message ∷ rest) = insert_message message (by_creation rest)

-- `messages[:current_index]`, if the message is there.
unfoldable pub messages_before : ℕ → List Message → Option (List Message)
messages_before message_id [] = none
messages_before message_id (message ∷ rest) =
    let later = messages_before message_id rest in
    if message.id == message_id
    then some []
    else elim later [ none ↦ none | some before ↦ some (message ∷ before) ]

-- The messages after the one with this identifier, if it is there.
unfoldable pub messages_after : ℕ → List Message → Option (List Message)
messages_after message_id [] = none
messages_after message_id (message ∷ rest) =
    let later = messages_after message_id rest in
    if message.id == message_id then some rest else later

-- `unsummarized`: all of them where there is no cursor, or it is not among them.
unfoldable pub unsummarized_messages : Option ℕ → List Message → List Message
unfolding messages_after
unsummarized_messages none previous = previous
unsummarized_messages (some cursor) previous = or_default (messages_after cursor previous) previous

-- `memory_lines`
abbrev pub memory_lines : Python → (String → String) → List String → List String
memory_lines py squeeze memories =
    map (λ memory. text_append "- " (squeeze memory))
      (keep_if (λ memory. not (text_eq (py.strip memory) "")) memories)

-- `xs[-1].id`
abbrev pub last_id : List Message → Option ℕ
last_id [] = none
last_id (message ∷ []) = some message.id
last_id (message ∷ other ∷ rest) = last_id (other ∷ rest)

-- The flush of the session's row.
abbrev pub put_session : AgentSession → List AgentSession → List AgentSession
put_session row [] = []
put_session row (conversation ∷ rest) =
    let others = put_session row rest in
    if conversation.id == row.id then row ∷ rest else conversation ∷ others

-- The summary's columns, where messages were dropped; `updated_at` follows (`onupdate`).
unfoldable pub advance_summary :
    (String → String) → Option Encoding → AgentSession → List Message → ℕ → ℕ → AgentSession
advance_summary squeeze encoding conversation [] for_summary now = conversation
advance_summary squeeze encoding conversation (message ∷ rest) for_summary now =
    let text =
      summarize squeeze encoding conversation.summary_text (message ∷ rest) (max 64 for_summary) in
    record conversation {
      summary_text = some text;
      summary_through_message_id = last_id (message ∷ rest);
      summary_message_count = conversation.summary_message_count + length (message ∷ rest);
      summary_token_count = count encoding text;
      summary_updated_at = some now;
      updated_at = now;
    }

-- The rest of `prepare_session_context`, once the session and its unsummarized messages are known.
unfoldable pub build_context :
    Python
    → (String → String)
    → Option Encoding
    → ContextPolicy
    → AgentSession
    → String
    → List String
    → List Message
    → ℕ
    → PreparedContext × AgentSession
unfolding advance_summary
build_context py squeeze encoding policy conversation prompt memories unsummarized now =
    let current_tokens = count encoding prompt in
    let lines = memory_lines py squeeze memories in
    let memory = truncate encoding (join_lines lines) policy.long_term_memory_max_tokens in
    let memory_tokens = count encoding memory in
    let budget = history_budget policy current_tokens memory_tokens in
    let for_summary =
      summary_budget encoding policy conversation.summary_text unsummarized budget in
    let for_recent = recent_budget policy budget for_summary in
    let dropped = dropped_messages encoding policy for_recent unsummarized in
    let fitted =
      fit_history encoding policy.minimum_recent_tokens for_recent
        (selected_messages encoding policy for_recent unsummarized) in
    let row = advance_summary squeeze encoding conversation dropped for_summary now in
    let summary = or_default row.summary_text "" in
    let summary_tokens = count encoding summary in
    let history_tokens = history_size encoding fitted.0 in
    let estimated =
      policy.system_reserved_tokens + policy.tool_reserved_tokens + current_tokens + summary_tokens
      + history_tokens + memory_tokens in
    (
      record {
        history = fitted.0;
        summary = row.summary_text;
        long_term_memory = if text_eq memory "" then none else some memory;
        usage = record {
          max_input_tokens = policy.max_input_tokens;
          estimated_input_tokens = estimated;
          current_message_tokens = current_tokens;
          history_tokens = history_tokens;
          summary_tokens = summary_tokens;
          long_term_memory_tokens = memory_tokens;
          system_reserved_tokens = policy.system_reserved_tokens;
          tool_reserved_tokens = policy.tool_reserved_tokens;
          output_reserved_tokens = policy.output_reserved_tokens;
          history_messages_used = length fitted.0;
          long_term_memories_recalled = length lines;
          messages_summarized = length dropped;
          messages_truncated = fitted.1;
          summary_present = not (text_eq summary "");
          summary_updated = ltb 0 (length dropped);
          over_budget = ltb policy.max_input_tokens estimated;
        };
      },
      row,
    )

-- The session's messages before the current one, in order.
abbrev pub previous_messages : Db → ℕ → ℕ → Option (List Message)
previous_messages db session_id message_id =
    messages_before message_id
      (by_creation (keep_if (λ message. message.session_id == session_id) db.messages))

-- `prepare_session_context`
unfoldable pub prepare_session_context :
    Python
    → (String → String)
    → Option Encoding
    → Db
    → ℕ
    → ℕ
    → String
    → ContextPolicy
    → List String
    → ℕ
    → ContextResult
unfolding build_context messages_before
prepare_session_context py squeeze encoding db session_id message_id prompt policy memories now =
    elim (find_session session_id db.sessions) [
      | none ↦ not_found session_not_found
      | some conversation ↦ elim (previous_messages db session_id message_id) [
        | none ↦ not_found message_not_found
        | some previous ↦
            let (context, row) =
              build_context py squeeze encoding policy conversation prompt memories
                (unsummarized_messages conversation.summary_through_message_id previous) now in
            prepared context (record db { sessions = put_session row db.sessions })
      ]
    ]
