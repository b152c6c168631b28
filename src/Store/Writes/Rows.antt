-- ===== src/Store/Writes/Rows.antt =====
-- Lookups and updates in the table of Runs.
use diy_agent.Prelude.{
  ℕ, ◌≡◌, ◌≢◌, refl, none, some, List, [], ◌∷◌, ◌++◌, ◌==◌, All, All-zip, keep_if, take, Bool, zero,
  suc, arith, Bool-cases, inl, inr, subst,
}
use diy_agent.Models.{AgentRun}
use diy_agent.Store.Tables.{find_run, put_run}
use diy_agent.Store.Writes.{Distinct}

pub find_run-id :
    (k : ℕ) (runs : List AgentRun) {run : AgentRun} → find_run k runs ≡ some run → run.id ≡ k
find_run-id k [] h = ground arith
find_run-id k (r ∷ runs) {run} h = ground (arith, find_run-id k runs {run = run})

pub find_run-put_run_ne :
    (k : ℕ) (row : AgentRun) (runs : List AgentRun)
    → row.id ≢ k
    → find_run k (put_run row runs) ≡ find_run k runs
find_run-put_run_ne k row [] h = refl
find_run-put_run_ne k row (r ∷ runs) h = ground (arith, find_run-put_run_ne k row runs)

pub find_run-put_run_self :
    (row : AgentRun) (runs : List AgentRun) {run : AgentRun}
    → find_run row.id runs ≡ some run
    → find_run row.id (put_run row runs) ≡ some row
find_run-put_run_self row [] h = ground arith
find_run-put_run_self row (r ∷ runs) {run} h =
    ground (arith, find_run-put_run_self row runs {run = run})

pub find_run-append_some :
    (k : ℕ) (runs more : List AgentRun) {run : AgentRun}
    → find_run k runs ≡ some run
    → find_run k (runs ++ more) ≡ some run
find_run-append_some k [] more h = ground arith
find_run-append_some k (r ∷ runs) more {run} h =
    ground (arith, find_run-append_some k runs more {run = run})

pub find_run-append_none :
    (k : ℕ) (runs more : List AgentRun)
    → find_run k runs ≡ none
    → find_run k (runs ++ more) ≡ find_run k more
find_run-append_none k [] more h = refl
find_run-append_none k (r ∷ runs) more h = ground (arith, find_run-append_none k runs more)

pub put_run-Distinct :
    (row : AgentRun) (runs : List AgentRun) → Distinct runs → Distinct (put_run row runs)
put_run-Distinct row [] d = d
put_run-Distinct row (r ∷ runs) d =
    ground (arith, put_run-Distinct row runs d.1, find_run-put_run_ne r.id row runs)

pub append-Distinct :
    (row : AgentRun) (runs : List AgentRun)
    → find_run row.id runs ≡ none
    → Distinct runs
    → Distinct (runs ++ row ∷ [])
append-Distinct row [] h d = (refl, tt)
append-Distinct row (r ∷ runs) h d =
    ground (arith, append-Distinct row runs, find_run-append_none r.id runs (row ∷ []) d.0)

module _ {κ} (P : AgentRun → Type κ) where
  pub find_run-All :
      (k : ℕ) (runs : List AgentRun) {run : AgentRun}
      → All P runs
      → find_run k runs ≡ some run
      → P run
  find_run-All k [] a h = cc
  find_run-All k (r ∷ runs) a h = elim (Bool-cases (r.id == k)) [
    | inl hit ↦ subst P (cc (rw hit at h)) a.0
    | inr miss ↦ find_run-All k runs a.1 (rw miss at h)
  ]

  pub put_run-All :
      (row : AgentRun) (runs : List AgentRun) → All P runs → P row → All P (put_run row runs)
  put_run-All row [] a h = a
  put_run-All row (r ∷ runs) a h = elim (Bool-cases (r.id == row.id)) [
    | inl hit ↦ rw hit (h, a.1)
    | inr miss ↦ rw miss (a.0, put_run-All row runs a.1 h)
  ]

-- The rows with another key than a missing one.
pub find_run-none-All :
    (k : ℕ) (runs : List AgentRun) → find_run k runs ≡ none → All (λ r. r.id ≢ k) runs
find_run-none-All k [] h = tt
find_run-none-All k (r ∷ runs) h = elim (Bool-cases (r.id == k)) [
  | inl hit ↦ absurd (ground arith)
  | inr miss ↦ (ground arith, find_run-none-All k runs (rw miss at h))
]

pub find_run-take-none :
    (k n : ℕ) (runs : List AgentRun) → find_run k runs ≡ none → find_run k (take n runs) ≡ none
find_run-take-none k zero runs h = refl
find_run-take-none k (suc n) [] h = refl
find_run-take-none k (suc n) (r ∷ runs) h = ground (arith, find_run-take-none k n runs)

pub take-Distinct : (n : ℕ) (runs : List AgentRun) → Distinct runs → Distinct (take n runs)
take-Distinct zero runs d = tt
take-Distinct (suc n) [] d = tt
take-Distinct (suc n) (r ∷ runs) d = (find_run-take-none r.id n runs d.0, take-Distinct n runs d.1)

module _ (test : AgentRun → Bool) where
  pub find_run-keep_if-none :
      (k : ℕ) (runs : List AgentRun)
      → find_run k runs ≡ none
      → find_run k (keep_if test runs) ≡ none
  find_run-keep_if-none k [] h = refl
  find_run-keep_if-none k (r ∷ runs) h = ground (arith, find_run-keep_if-none k runs)

  pub keep_if-Distinct : (runs : List AgentRun) → Distinct runs → Distinct (keep_if test runs)
  keep_if-Distinct [] d = tt
  keep_if-Distinct (r ∷ runs) d = elim (Bool-cases (test r)) [
    | inl pass ↦ rw pass (find_run-keep_if-none r.id runs d.0, keep_if-Distinct runs d.1)
    | inr skip ↦ rw skip (keep_if-Distinct runs d.1)
  ]

  -- The rows that a query selects are found under their keys.
  pub keep_if-found :
      (runs : List AgentRun)
      → Distinct runs
      → All (λ run. find_run run.id runs ≡ some run) (keep_if test runs)
  keep_if-found [] d = tt
  keep_if-found (r ∷ runs) d =
      let rest : All (λ run. find_run run.id (r ∷ runs) ≡ some run) (keep_if test runs) =
        All-zip (keep_if test runs) (λ o other found. ground arith)
          (find_run-none-All r.id (keep_if test runs) (find_run-keep_if-none r.id runs d.0))
          (keep_if-found runs d.1) in
      elim (Bool-cases (test r)) [
        | inl pass ↦ rw pass (ground arith, rest)
        | inr skip ↦ rw skip rest
      ]
