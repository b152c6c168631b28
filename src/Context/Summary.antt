-- ===== src/Context/Summary.antt =====
-- app/context.py: `ExtractiveSummarizer`. `squeeze` stands for `" ".join(text.split())`.
use diy_agent.Prelude.{
  ℕ, ◌-◌, ◌/◌, max, String, Option, List, [], ◌∷◌, ◌++◌, map, reverse, text_append, text_eq,
  or_default, if◌then◌else◌,
}
use diy_agent.Models.{Message, MessageRole}
use diy_agent.Context.Tokens.{Encoding, count, truncate}

-- `"\n".join(lines)`
abbrev pub join_lines : List String → String
join_lines [] = ""
join_lines (line ∷ []) = line
join_lines (line ∷ other ∷ rest) = text_append line (text_append "\n" (join_lines (other ∷ rest)))

-- `_ROLE_LABELS`
abbrev pub role_label : MessageRole → String
role_label MessageRole.user = "用户"
role_label MessageRole.assistant = "助手"
role_label MessageRole.system = "系统"

abbrev pub summary_line : (String → String) → Message → String
summary_line squeeze message =
    text_append (role_label message.role) (text_append ": " (squeeze message.content))

-- The part of a summary that keeps the one before it; none where that is missing or empty.
unfoldable pub earlier_part : Option Encoding → String → ℕ → List String
earlier_part encoding previous max_tokens =
    if text_eq previous ""
    then []
    else text_append "既有摘要:\n" (truncate encoding previous (max 16 (max_tokens / 2))) ∷ []

-- `summarize`
unfoldable pub summarize :
    (String → String) → Option Encoding → Option String → List Message → ℕ → String
summarize squeeze encoding previous [] max_tokens =
    truncate encoding (or_default previous "") max_tokens
summarize squeeze encoding previous (message ∷ messages) max_tokens =
    let parts = earlier_part encoding (or_default previous "") max_tokens in
    let remaining = max 16 (max_tokens - count encoding (join_lines parts)) in
    let lines = map (summary_line squeeze) (reverse (message ∷ messages)) in
    truncate encoding
      (join_lines (
        parts ++ text_append "新增历史（由新到旧）:\n" (truncate encoding (join_lines lines) remaining) ∷ []))
      max_tokens
