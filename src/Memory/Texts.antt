-- ===== src/Memory/Texts.antt =====
-- app/memory.py: the texts of memories. The patterns stand as they are written: the raw strings
-- hold two backslashes, so that a sentence also ends at the letter n and at a backslash, and the
-- second pattern knows single characters from `0` to the backslash in place of CJK characters.
use Prim.Native.Char.{Char, code}
use diy_agent.Prelude.{
  ℕ, String, List, [], ◌∷◌, Bool, false, ◌&&◌, ◌||◌, leb, ◌==◌, Json, str, Python, or_else, as_text,
  take_text, text_append, text_eq, any_of, keep_if, length, if◌then◌else◌,
}

-- What the code calls of the runtime on texts: `" ".join(text.split())`, `str.casefold`, and the
-- hexadecimal SHA-256 of the UTF-8 bytes.
pub record TextRuntime : Type 0 where
  pub python : Python
  pub squeeze : String → String
  pub casefold : String → String
  pub sha256_hex : String → String

-- `_clean_content`
unfoldable pub clean_content : TextRuntime → Json → String
clean_content rt value =
    take_text 2000 (rt.squeeze (as_text rt.python (or_else rt.python value (str ""))))

-- `_content_key`
unfoldable pub content_key : TextRuntime → String → String → String
content_key rt prefix content =
    take_text 255
      (text_append prefix (text_append ":" (take_text 32 (rt.sha256_hex (rt.casefold content)))))

-- The characters of `_SENTENCE_SPLIT`: 。！？!?\ and n.
abbrev pub ends_sentence : Char → Bool
ends_sentence c =
    code c == 12290
    || code c == 65281
    || code c == 65311
    || code c == 33
    || code c == 63
    || code c == 92
    || code c == 110

abbrev pub starts_with_end : String → Bool
starts_with_end String.[] = false
starts_with_end (String.◌∷◌ c s) = ends_sentence c

abbrev pub on_first : Char → List String → List String
on_first c [] = []
on_first c (piece ∷ rest) = String.◌∷◌ c piece ∷ rest

-- `_SENTENCE_SPLIT.split(text)`: the pieces between the runs of such characters.
unfoldable pub split_sentences : String → List String
split_sentences String.[] = "" ∷ []
split_sentences (String.◌∷◌ c s) =
    let rest = split_sentences s in
    if ends_sentence c then if starts_with_end s then rest else "" ∷ rest else on_first c rest

-- `[a-z0-9]`
abbrev pub is_word : Char → Bool
is_word c = leb 97 (code c) && leb (code c) 122 || leb 48 (code c) && leb (code c) 57

-- `[\\u3400-\\u9fff]`, as it is written.
abbrev pub is_single : Char → Bool
is_single c = leb 48 (code c) && leb (code c) 92 || code c == 117 || code c == 102

abbrev pub flush : String → List String → List String
flush run rest = if text_eq run "" then rest else run ∷ rest

-- The matches of `_WORD_PATTERN` after a run of word characters.
unfoldable pub words_after : String → String → List String
words_after run String.[] = flush run []
words_after run (String.◌∷◌ c s) =
    let longer = text_append run (String.◌∷◌ c "") in
    let rest = words_after (if is_word c then longer else "") s in
    if is_word c then rest else flush run (if is_single c then String.◌∷◌ c "" ∷ rest else rest)

-- `text in texts`
abbrev pub is_among : String → List String → Bool
is_among text texts = any_of (λ other. text_eq other text) texts

-- `set(texts)`, as a list without repetitions.
abbrev pub distinct : List String → List String
distinct [] = []
distinct (text ∷ texts) =
    let rest = distinct texts in if is_among text rest then rest else text ∷ rest

-- `_tokens`
unfoldable pub tokens : TextRuntime → String → List String
unfolding words_after
tokens rt text = distinct (words_after "" (rt.casefold text))

-- `len(a & b)`
abbrev pub overlap : List String → List String → ℕ
overlap a b = length (keep_if (λ text. is_among text b) a)
