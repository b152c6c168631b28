-- ===== src/Context/Tokens.antt =====
-- app/context.py: `TokenCounter`. The encoding of `tiktoken`, where it is installed, is a
-- parameter.
use Prim.Native.Char.{code}
use diy_agent.Prelude.{
  ℕ, zero, suc, ◌+◌, ◌-◌, ◌/◌, max, String, Option, none, some, List, ◌&&◌, leb, length, take,
  text_append, text_eq, text_length, take_text, if◌then◌else◌,
}

-- `encoding.encode` and `encoding.decode`
pub record Encoding : Type 0 where
  pub encode : String → List ℕ
  pub decode : List ℕ → String

-- How many characters of a text are CJK: `"\u3400" <= char <= "\u9fff"`.
abbrev pub cjk_length : String → ℕ
cjk_length String.[] = 0
cjk_length (String.◌∷◌ c s) =
    let rest = cjk_length s in if leb 13312 (code c) && leb (code c) 40959 then suc rest else rest

-- `TokenCounter.count`
unfoldable pub count : Option Encoding → String → ℕ
count encoding text = if text_eq text "" then 0 else elim encoding [
  | none ↦ cjk_length text + max 1 ((text_length text - cjk_length text + 3) / 4)
  | some e ↦ length (e.encode text)
]

-- The loop of `truncate` over `low` and `high`, on fuel: nothing where the rounds run out before the
-- two ends meet.
unfoldable pub longest_prefix : Option Encoding → String → ℕ → ℕ → ℕ → ℕ → Option ℕ
longest_prefix encoding text budget zero low high = if leb high low then some low else none
longest_prefix encoding text budget (suc rounds) low high =
    let middle = (low + high + 1) / 2 in
    let right = longest_prefix encoding text budget rounds middle high in
    let left = longest_prefix encoding text budget rounds low (middle - 1) in
    if leb high low
    then some low
    else if leb (count encoding (take_text middle text)) budget
    then right
    else left

abbrev pub cut_mark : String
cut_mark = "\n…[已按上下文预算截断]"

abbrev pub body_budget : Option Encoding → ℕ → ℕ
body_budget encoding max_tokens = max 1 (max_tokens - count encoding cut_mark)

-- The prefix of a text that a search ended on. Out of rounds there is none, which does not happen
-- with as many rounds as the text has characters (Context.Truncation).
abbrev pub prefix_of : String → Option ℕ → String
prefix_of text none = ""
prefix_of text (some low) = take_text low text

-- The part of a text that `truncate` keeps before its mark.
unfoldable pub truncated_body : Option Encoding → String → ℕ → String
unfolding longest_prefix
truncated_body none text budget =
    prefix_of text (longest_prefix none text budget (text_length text) 0 (text_length text))
truncated_body (some e) text budget = e.decode (take budget (e.encode text))

-- `TokenCounter.truncate`
unfoldable pub truncate : Option Encoding → String → ℕ → String
unfolding count truncated_body
truncate encoding text max_tokens =
    if leb max_tokens 0
    then ""
    else if leb (count encoding text) max_tokens
    then text
    else text_append (truncated_body encoding text (body_budget encoding max_tokens)) cut_mark
