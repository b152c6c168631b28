-- ===== src/Context/Truncation.antt =====
-- app/context.py: the search of `TokenCounter.truncate` for the longest part that fits.
use mathlib.Core.Option.{some-injective}
use diy_agent.Prelude.{
  ℕ, zero, suc, ◌+◌, ◌-◌, ◌/◌, ◌≤◌, ◌<◌, ◌≡◌, ◌⊎◌, inl, inr, refl, ap, ◌∙◌, String, Option, none,
  some, leb, Bool-cases, take_text, text_length, arith, if_true, if_false, sym, subst, true,
}
use diy_agent.Context.Tokens.{Encoding, count, longest_prefix, prefix_of, truncated_body}

module _ (encoding : Option Encoding) (text : String) (budget : ℕ) where
  -- As many rounds as the two ends of the search are apart are enough for the loop of `truncate` to
  -- end, on a prefix between them.
  pub longest_prefix-some :
      (rounds low high : ℕ)
      → low ≤ high
      → high - low ≤ rounds
      → (n : ℕ) × (longest_prefix encoding text budget rounds low high ≡ some n)
        × (low ≤ n)
        × (n ≤ high)
  unfolding longest_prefix
  longest_prefix-some zero low high order near =
      let met : leb high low ≡ true = ground arith in
      (low, if_true _ _ met, ground arith, ground arith)
  longest_prefix-some (suc rounds) low high order near =
      let middle = (low + high + 1) / 2 in
      elim (Bool-cases (leb high low)) [
        | inl met ↦ (low, if_true _ _ met, ground arith, ground arith)
        | inr apart ↦ elim (Bool-cases (leb (count encoding (take_text middle text)) budget)) [
          | inl small ↦
              let (n, e, above, below) =
                longest_prefix-some rounds middle high (ground arith) (ground arith) in
              (n, if_false _ _ apart ∙ if_true _ _ small ∙ e, ground arith, below)
          | inr large ↦
              let (n, e, above, below) =
                longest_prefix-some rounds low (middle - 1) (ground arith) (ground arith) in
              (n, if_false _ _ apart ∙ if_false _ _ large ∙ e, above, ground arith)
        ]
      ]

  -- A prefix within the budget.
  abbrev pub Within : ℕ → Type 0
  Within low = count encoding (take_text low text) ≤ budget

  -- The length of the whole text, or one below a length that is over the budget.
  abbrev pub Beyond : ℕ → Type 0
  Beyond high = (high ≡ text_length text) ⊎ (budget < count encoding (take_text (suc high) text))

  met_ends :
      (low high n : ℕ)
      → low ≤ high
      → high ≤ low
      → Within low
      → Beyond high
      → some low ≡ some n
      → Within n × Beyond n
  met_ends low high n order met fits over e =
      let same : low ≡ n = some-injective _ _ e in
      let ends : high ≡ low = omega (arith, order, met) in
      (subst Within same fits, subst Beyond (ends ∙ same) over)

  -- Where the loop ends, its prefix is within the budget and the next one is not, or there is none.
  longest_prefix-stops :
      (rounds low high n : ℕ)
      → low ≤ high
      → Within low
      → Beyond high
      → longest_prefix encoding text budget rounds low high ≡ some n
      → Within n × Beyond n
  unfolding longest_prefix
  longest_prefix-stops zero low high n order fits over e = elim (Bool-cases (leb high low)) [
    | inl met ↦ met_ends low high n order (ground arith) fits over (sym (if_true _ _ met) ∙ e)
    | inr apart ↦ absurd (ground (arith, sym (if_false _ _ apart) ∙ e))
  ]
  longest_prefix-stops (suc rounds) low high n order fits over e =
      let middle = (low + high + 1) / 2 in
      elim (Bool-cases (leb high low)) [
        | inl met ↦ met_ends low high n order (ground arith) fits over (sym (if_true _ _ met) ∙ e)
        | inr apart ↦ elim (Bool-cases (leb (count encoding (take_text middle text)) budget)) [
          | inl small ↦
              longest_prefix-stops rounds middle high n (ground arith) (ground arith) over
                (sym (if_true _ _ small) ∙ sym (if_false _ _ apart) ∙ e)
          | inr large ↦
              let back : middle ≡ suc (middle - 1) = ground arith in
              let over_middle : budget < count encoding (take_text (suc (middle - 1)) text) =
                subst (λ n. budget < count encoding (take_text n text)) back (ground arith) in
              longest_prefix-stops rounds low (middle - 1) n (ground arith) fits (inr over_middle)
                (sym (if_false _ _ large) ∙ sym (if_false _ _ apart) ∙ e)
        ]
      ]

-- Without `tiktoken`, `truncate` keeps the prefix that its search ends on: within the budget, and one
-- more character would be over it, or there is none.
pub truncated_body-longest :
    (text : String) (budget : ℕ)
    → (n : ℕ) × (truncated_body none text budget ≡ take_text n text)
      × (n ≤ text_length text)
      × (count none (take_text n text) ≤ budget)
      × ((n ≡ text_length text) ⊎ (budget < count none (take_text (suc n) text)))
unfolding truncated_body count
truncated_body-longest text budget =
    let all = text_length text in
    let (n, e, above, below) =
      longest_prefix-some none text budget all 0 all (omega arith) (omega arith) in
    let empty : Within none text budget 0 = omega arith in
    let (fits, over) =
      longest_prefix-stops none text budget all 0 all n (omega arith) empty (inl refl) e in
    (n, ap (prefix_of text) e, below, fits, over)
