-- ===== src/Memory/Writes.antt =====
-- What the operations do to the table of memories: new rows, and changes of rows by a relation.
use diy_agent.Prelude.{
  All, All-imp, ℕ, ◌≡◌, ◌⊎◌, inl, inr, refl, sym, subst, ap, ◌∙◌, none, some, List, [], ◌∷◌, ◌++◌,
  Bool, true, false, ◌||◌, ◌==◌, ==_iff, arith, text_eq_sym, first, Bool-cases, if_true,
}
use diy_agent.Prelude.Tables.{
  RowsDiffer, first-key, first-passes, none-first, put_row-RowsDiffer, append-RowsDiffer,
}
use diy_agent.Memory.Rows.{TravelMemory, is_deleted, find_memory, has_user_key, clashes, put_memory}

abbrev pub memory_id : TravelMemory → ℕ
memory_id row = row.id

-- Whether one row keeps the other out.
abbrev pub clash : TravelMemory → TravelMemory → Bool
clash new row = row.id == new.id || has_user_key new.user_id new.normalized_key row

-- No two rows have the same identifier, or the same user and key.
abbrev pub RowsAreUnique : List TravelMemory → Type 0
RowsAreUnique rows = RowsDiffer memory_id clash rows

-- The identity of a row.
abbrev pub SameIdentity : TravelMemory → TravelMemory → Type 0
SameIdentity a b = (a.id ≡ b.id) × (a.user_id ≡ b.user_id) × (a.normalized_key ≡ b.normalized_key)

pub data Writes (P : TravelMemory → TravelMemory → Type 0) (rows : List TravelMemory)
    : List TravelMemory → Type 0 where
  here : Writes P rows rows
  add :
      {mid : List TravelMemory} (new : TravelMemory)
      → Writes P rows mid
      → clashes new mid ≡ false
      → Writes P rows (mid ++ new ∷ [])
  change :
      {mid : List TravelMemory} (old changed : TravelMemory)
      → Writes P rows mid
      → find_memory changed.id mid ≡ some old
      → SameIdentity changed old
      → P old changed
      → Writes P rows (put_memory changed mid)

clash_sym : (a b : TravelMemory) → clash a b ≡ clash b a
clash_sym a b = let texts = text_eq_sym a.normalized_key b.normalized_key in ground arith

clash_key : (a b : TravelMemory) → (memory_id a == memory_id b) ≡ true → clash b a ≡ true
clash_key a b h = ground arith

-- The row that a query found is the one that is found by its identifier.
pub first-find_memory :
    (test : TravelMemory → Bool) (rows : List TravelMemory) {found : TravelMemory}
    → RowsAreUnique rows
    → first test rows ≡ some found
    → (find_memory found.id rows ≡ some found) × (test found ≡ true)
first-find_memory test rows {found} u h = (
  first-key memory_id clash clash_sym clash_key test rows {found = found} u h,
  first-passes test rows {found = found} h,
)

-- A row that keeps out all others is alone with its identifier.
pub clash-find_memory :
    (row : TravelMemory) (rows : List TravelMemory)
    → All (λ other. clash row other ≡ false) rows
    → find_memory row.id rows ≡ none
clash-find_memory row rows h =
    none-first (λ other. other.id == row.id) rows (All-imp rows (λ other apart. ground arith) h)

clash-SameIdentity :
    (row old changed : TravelMemory) → SameIdentity changed old → clash row changed ≡ clash row old
clash-SameIdentity row old changed (i, u, k) = rw (i, u, k) refl

put-RowsAreUnique :
    (old changed : TravelMemory) (rows : List TravelMemory)
    → RowsAreUnique rows
    → find_memory changed.id rows ≡ some old
    → SameIdentity changed old
    → RowsAreUnique (put_memory changed rows)
put-RowsAreUnique old changed rows u found same =
    put_row-RowsDiffer memory_id clash clash_sym clash_key (λ row. row.id == changed.id) old changed
      same.0 (λ row. clash-SameIdentity row old changed same) rows u found

module _ {P : TravelMemory → TravelMemory → Type 0} where
  pub Writes-RowsAreUnique :
      {rows after : List TravelMemory}
      → RowsAreUnique rows
      → Writes P rows after
      → RowsAreUnique after
  Writes-RowsAreUnique u here = u
  Writes-RowsAreUnique u (add {mid} new w free) =
      append-RowsDiffer memory_id clash clash_sym clash_key new mid (Writes-RowsAreUnique u w) free
  Writes-RowsAreUnique u (change {mid} old changed w found same p) =
      put-RowsAreUnique old changed mid (Writes-RowsAreUnique u w) found same

  pub Writes-trans :
      {rows mid after : List TravelMemory}
      → Writes P rows mid
      → Writes P mid after
      → Writes P rows after
  Writes-trans w here = w
  Writes-trans w (add new more free) = add new (Writes-trans w more) free
  Writes-trans w (change old changed more found same p) =
      change old changed (Writes-trans w more) found same p

-- A deleted row stays as it is.
abbrev pub Rests : TravelMemory → TravelMemory → Type 0
Rests row later = (is_deleted row.status ≡ false) ⊎ (later ≡ row)

pub Rests-trans : (a b c : TravelMemory) → Rests a b → Rests b c → Rests a c
Rests-trans a b c (inl alive) g = inl alive
Rests-trans a b c (inr same) (inl alive) =
    inl (subst (λ (m : TravelMemory). is_deleted m.status ≡ false) same alive)
Rests-trans a b c (inr same) (inr again) = inr (again ∙ same)

pub Writes-map :
    {P Q : TravelMemory → TravelMemory → Type 0} {rows after : List TravelMemory}
    → ((old changed : TravelMemory) → P old changed → Q old changed)
    → Writes P rows after
    → Writes Q rows after
Writes-map f here = here
Writes-map f (add new w free) = add new (Writes-map f w) free
Writes-map f (change old changed w found same p) =
    change old changed (Writes-map f w) found same (f old changed p)

pub find_memory-append :
    (k : ℕ) (rows more : List TravelMemory) {row : TravelMemory}
    → find_memory k rows ≡ some row
    → find_memory k (rows ++ more) ≡ some row
find_memory-append k [] more h = absurd (ground (arith, h))
find_memory-append k (row ∷ rows) more {row = found} h =
    ground (arith, find_memory-append k rows more {row = found})

pub find_memory-added :
    (new : TravelMemory) (rows : List TravelMemory)
    → clashes new rows ≡ false
    → find_memory new.id (rows ++ new ∷ []) ≡ some new
find_memory-added new [] h = if_true _ _ ((==_iff new.id new.id).1 refl)
find_memory-added new (row ∷ rows) h = ground (arith, find_memory-added new rows)

pub find_memory-put_same :
    (changed old : TravelMemory) (rows : List TravelMemory)
    → find_memory changed.id rows ≡ some old
    → find_memory changed.id (put_memory changed rows) ≡ some changed
find_memory-put_same changed old [] h = absurd (ground (arith, h))
find_memory-put_same changed old (row ∷ rows) h =
    let me = (==_iff changed.id changed.id).1 refl in
    ground (arith, find_memory-put_same changed old rows)

pub find_memory-put_other :
    (k : ℕ) (changed : TravelMemory) (rows : List TravelMemory)
    → (changed.id == k) ≡ false
    → find_memory k (put_memory changed rows) ≡ find_memory k rows
find_memory-put_other k changed [] h = refl
find_memory-put_other k changed (row ∷ rows) h =
    ground (arith, find_memory-put_other k changed rows)

-- What holds between a row and itself, composes, and holds of every change, holds between a row
-- before and after the writes; and no row is lost.
module _ {P Q : TravelMemory → TravelMemory → Type 0} (same : (a : TravelMemory) → Q a a)
    (next : (a b c : TravelMemory) → Q a b → Q b c → Q a c)
    (one : (a b : TravelMemory) → SameIdentity b a → P a b → Q a b) where
  pub Writes-find_memory :
      {rows after : List TravelMemory} (k : ℕ) (row : TravelMemory)
      → Writes P rows after
      → find_memory k rows ≡ some row
      → (later : TravelMemory) × (find_memory k after ≡ some later) × Q row later
  Writes-find_memory k row here h = (row, h, same row)
  Writes-find_memory k row (add {mid} new w free) h =
      let (later, there, q) = Writes-find_memory k row w h in
      (later, find_memory-append k mid (new ∷ []) there, q)
  Writes-find_memory k row (change {mid} old changed w found identity p) h =
      let (later, there, q) = Writes-find_memory k row w h in
      elim (Bool-cases (changed.id == k)) [
        | inl it ↦
            let e : changed.id ≡ k = (==_iff changed.id k).0 it in
            let old_later : old ≡ later = cc (sym found ∙ ap (λ j. find_memory j mid) e ∙ there) in
            (
              changed,
              subst (λ j. find_memory j (put_memory changed mid) ≡ some changed) e
                  (find_memory-put_same changed old mid found),
              next row later changed q
                  (subst (λ m. Q m changed) old_later (one old changed identity p)),
            )
        | inr apart ↦ (later, find_memory-put_other k changed mid apart ∙ there, q)
      ]
