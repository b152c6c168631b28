-- ===== src/Prelude/Tables.antt =====
-- Tables whose rows keep each other out, and the change of a row that a query found.
use Prim.Native.Nat.{ℕ}
use mathlib.Core.Path.{◌≡◌, refl, sym, subst, ap, ap₂, ◌∙◌}
use mathlib.Core.Logic.{◌⊎◌, inl, inr}
use mathlib.Core.Bool.{Bool, true, false, ◌||◌}
use mathlib.Core.Option.{none, some}
use mathlib.Core.List.{List, [], ◌∷◌, ◌++◌, map}
use native.Mathlib.Omega.{arith}
use diy_agent.Prelude.Tests.{◌==◌, ==_iff, Bool-cases, if_true, if_false, if◌then◌else◌}
use diy_agent.Prelude.Lists.{All, All-imp, All-append, any_of, first}

module _ {Row : Type 0} where
  pub any_of-All :
      (test : Row → Bool) (rows : List Row)
      → any_of test rows ≡ false
      → All (λ row. test row ≡ false) rows
  any_of-All test [] h = tt
  any_of-All test (row ∷ rows) h = (ground arith, any_of-All test rows (ground arith))

  pub any_of-append :
      (test : Row → Bool) (xs ys : List Row)
      → any_of test (xs ++ ys) ≡ (any_of test xs || any_of test ys)
  any_of-append test [] ys = refl
  any_of-append test (x ∷ xs) ys = let more = any_of-append test xs ys in ground arith

  pub first-All :
      (P : Row → Type 0) (test : Row → Bool) (rows : List Row) {found : Row}
      → All P rows
      → first test rows ≡ some found
      → P found
  first-All P test [] h e = absurd (ground (arith, e))
  first-All P test (row ∷ rows) {found} h e = elim (Bool-cases (test row)) [
    | inl pass ↦ let same : row ≡ found = cc (sym (if_true _ _ pass) ∙ e) in subst P same h.0
    | inr fail ↦ first-All P test rows {found = found} h.1 (sym (if_false _ _ fail) ∙ e)
  ]

  pub first-passes :
      (test : Row → Bool) (rows : List Row) {found : Row}
      → first test rows ≡ some found
      → test found ≡ true
  first-passes test [] e = absurd (ground (arith, e))
  first-passes test (row ∷ rows) {found} e = elim (Bool-cases (test row)) [
    | inl pass ↦
        let same : row ≡ found = cc (sym (if_true _ _ pass) ∙ e) in
        subst (λ r. test r ≡ true) same pass
    | inr fail ↦ first-passes test rows {found = found} (sym (if_false _ _ fail) ∙ e)
  ]

  pub first-none :
      (test : Row → Bool) (rows : List Row)
      → first test rows ≡ none
      → All (λ row. test row ≡ false) rows
  first-none test [] e = tt
  first-none test (row ∷ rows) e = elim (Bool-cases (test row)) [
    | inl pass ↦ absurd (ground (arith, sym (if_true _ _ pass) ∙ e))
    | inr fail ↦ (fail, first-none test rows (sym (if_false _ _ fail) ∙ e))
  ]

  pub none-first :
      (test : Row → Bool) (rows : List Row)
      → All (λ row. test row ≡ false) rows
      → first test rows ≡ none
  none-first test [] h = refl
  none-first test (row ∷ rows) h = if_false _ _ h.0 ∙ none-first test rows h.1

-- `key` is the primary key of a row, and `clash` tells whether two rows cannot both be there.
module _ {Row : Type 0} (key : Row → ℕ) (clash : Row → Row → Bool) where
  abbrev pub put_row : Row → List Row → List Row
  put_row changed rows = map (λ row. if key row == key changed then changed else row) rows

  abbrev pub RowsDiffer : List Row → Type 0
  RowsDiffer [] = Unit
  RowsDiffer (row ∷ rows) = All (λ other. clash row other ≡ false) rows × RowsDiffer rows

  other : (P : Row → Type 0) (row : Row) {b : Bool} → (b ≡ true) ⊎ P row → b ≡ false → P row
  other P row (inl it) apart = absurd (ground (arith, it, apart))
  other P row (inr p) apart = p

  pub put_row-All :
      (P : Row → Type 0) (changed : Row) (rows : List Row)
      → P changed
      → All (λ row. ((key row == key changed) ≡ true) ⊎ P row) rows
      → All P (put_row changed rows)
  put_row-All P changed [] p h = tt
  put_row-All P changed (row ∷ rows) p h = elim (Bool-cases (key row == key changed)) [
    | inl it ↦ (subst P (sym (if_true _ _ it)) p, put_row-All P changed rows p h.1)
    | inr apart ↦ (
      subst P (sym (if_false _ _ apart)) (other P row (h.0) apart),
      put_row-All P changed rows p h.1,
    )
  ]

  -- Rows that are not the changed one stay.
  put_row-absent :
      (changed : Row) (rows : List Row)
      → All (λ row. (key row == key changed) ≡ false) rows
      → put_row changed rows ≡ rows
  put_row-absent changed [] h = refl
  put_row-absent changed (row ∷ rows) h =
      ap₂ ◌∷◌ (if_false _ _ h.0) (put_row-absent changed rows h.1)

  module _ (clash_sym : (a b : Row) → clash a b ≡ clash b a)
      (clash_key : (a b : Row) → (key a == key b) ≡ true → clash b a ≡ true) where
    pub append-RowsDiffer :
        (new : Row) (rows : List Row)
        → RowsDiffer rows
        → any_of (clash new) rows ≡ false
        → RowsDiffer (rows ++ new ∷ [])
    append-RowsDiffer new [] u h = (tt, tt)
    append-RowsDiffer new (row ∷ rows) u h =
        let apart = any_of-All (clash new) (row ∷ rows) h in
        (
          All-append (λ other. clash row other ≡ false) rows (new ∷ []) u.0
              (clash_sym row new ∙ apart.0, tt),
          append-RowsDiffer new rows u.1 (ground arith),
        )

    apart_key : (a b : Row) → clash b a ≡ false → (key a == key b) ≡ false
    apart_key a b h = elim (Bool-cases (key a == key b)) [
      | inl same ↦ absurd (ground (arith, sym (clash_key a b same) ∙ h))
      | inr apart ↦ apart
    ]

    -- All rows but the one that a query found are apart from it.
    pub first-apart :
        (test : Row → Bool) (rows : List Row) {found : Row}
        → RowsDiffer rows
        → first test rows ≡ some found
        → All (λ row. ((key row == key found) ≡ true) ⊎ (clash found row ≡ false)) rows
    first-apart test [] u e = tt
    first-apart test (row ∷ rows) {found} u e = elim (Bool-cases (test row)) [
      | inl pass ↦
          let same : row ≡ found = cc (sym (if_true _ _ pass) ∙ e) in
          (
            inl ((==_iff (key row) (key found)).1 (ap key same)),
            All-imp rows (λ r apart. inr (ap (λ f. clash f r) (sym same) ∙ apart)) u.0,
          )
      | inr fail ↦
          let there = sym (if_false _ _ fail) ∙ e in
          (
            inr (
                clash_sym found row
                ∙ (first-All (λ r. clash row r ≡ false) test rows {found = found} u.0 there)),
            first-apart test rows {found = found} u.1 there,
          )
    ]

    -- The row that a query found is the one with its key.
    pub first-key :
        (test : Row → Bool) (rows : List Row) {found : Row}
        → RowsDiffer rows
        → first test rows ≡ some found
        → first (λ row. key row == key found) rows ≡ some found
    first-key test [] u e = absurd (ground (arith, e))
    first-key test (row ∷ rows) {found} u e = elim (Bool-cases (test row)) [
      | inl pass ↦
          let same : row ≡ found = cc (sym (if_true _ _ pass) ∙ e) in
          if_true _ _ ((==_iff (key row) (key found)).1 (ap key same)) ∙ ap some same
      | inr fail ↦
          let there = sym (if_false _ _ fail) ∙ e in
          let apart = apart_key row found (
            clash_sym found row
            ∙ first-All (λ r. clash row r ≡ false) test rows {found = found} u.0 there) in
          if_false _ _ apart ∙ first-key test rows {found = found} u.1 there
    ]

    -- A change that clashes like the row that it replaces.
    module _ (test : Row → Bool) (old changed : Row) (same_key : key changed ≡ key old)
        (same_clash : (row : Row) → clash row changed ≡ clash row old) where
      put_row-step :
          (row : Row) (rows : List Row)
          → RowsDiffer (row ∷ rows)
          → first test (row ∷ rows) ≡ some old
          → ((row ≡ old) × (put_row changed (row ∷ rows) ≡ changed ∷ rows))
            ⊎ ((first test rows ≡ some old)
                × (put_row changed (row ∷ rows) ≡ row ∷ put_row changed rows)
                × (clash row old ≡ false))
      put_row-step row rows u e = elim (Bool-cases (test row)) [
        | inl pass ↦
            let same : row ≡ old = cc (sym (if_true _ _ pass) ∙ e) in
            let it : (key row == key changed) ≡ true =
              (==_iff (key row) (key changed)).1 (ap key same ∙ sym same_key) in
            inl (
              same,
              ap₂ ◌∷◌ (if_true _ _ it) (
                  put_row-absent changed rows (
                    All-imp rows
                      (λ r apart.
                        ap (λ k. key r == k) same_key
                        ∙ apart_key r old (ap (λ f. clash f r) (sym same) ∙ apart))
                      u.0)),
            )
        | inr fail ↦
            let there = sym (if_false _ _ fail) ∙ e in
            let apart = (first-All (λ r. clash row r ≡ false) test rows {found = old} u.0 there) in
            let keys : (key row == key changed) ≡ false =
              ap (λ k. key row == k) same_key ∙ apart_key row old (clash_sym old row ∙ apart) in
            inr (there, ap (λ r. r ∷ put_row changed rows) (if_false _ _ keys), apart)
      ]

      pub put_row-RowsDiffer :
          (rows : List Row)
          → RowsDiffer rows
          → first test rows ≡ some old
          → RowsDiffer (put_row changed rows)
      put_row-RowsDiffer [] u e = tt
      put_row-RowsDiffer (row ∷ rows) u e = elim (put_row-step row rows u e) [
        | inl (same, put) ↦ subst RowsDiffer (sym put) (
          All-imp rows
              (λ r apart.
                clash_sym changed r
                ∙ same_clash r
                ∙ clash_sym r old
                ∙ ap (λ f. clash f r) (sym same)
                ∙ apart)
              u.0,
          u.1,
        )
        | inr (there, put, apart) ↦ subst RowsDiffer (sym put) (
          put_row-All (λ r. clash row r ≡ false) changed rows (same_clash row ∙ apart)
              (All-imp rows (λ r h. inr h) u.0),
          put_row-RowsDiffer rows u.1 there,
        )
      ]

      -- A test that does not tell the change from the old row finds as much as before.
      pub put_row-any_of :
          (ask : Row → Bool) (rows : List Row)
          → RowsDiffer rows
          → first test rows ≡ some old
          → ask changed ≡ ask old
          → any_of ask (put_row changed rows) ≡ any_of ask rows
      put_row-any_of ask [] u e h = refl
      put_row-any_of ask (row ∷ rows) u e h = elim (put_row-step row rows u e) [
        | inl (same, put) ↦
            ap (any_of ask) put ∙ ap (λ b. b || any_of ask rows) (h ∙ ap ask (sym same))
        | inr (there, put, apart) ↦
            ap (any_of ask) put ∙ ap (λ b. ask row || b) (put_row-any_of ask rows u.1 there h)
      ]
