-- ===== src/Store/Refines/Renewal.antt =====
-- app/store.py: the renewal of a lease.
use diy_agent.Prelude.{
  ℕ, ◌≡◌, refl, sym, ap, ◌∙◌, none, some, List, [], ◌∷◌, true, false, inl, inr, Option-cases,
  Bool-cases, map, length, keep_if, ◌==◌, if◌then◌else◌, if_true, if_false, arith,
}
use diy_agent.Models.{Db, AgentRun}
use diy_agent.Store.Tables.{find_run, put_run, owns}
use diy_agent.Store.Claim.{is_renewable, renewed_run, renew_lease}
use diy_agent.Store.Machine.{renew}
use diy_agent.Store.Writes.{Writes, change, touch, here, next, Distinct, DbIsValid}
use diy_agent.Store.Writes.Rows.{find_run-id, find_run-put_run_self}
use diy_agent.Store.Refines.Commit.{find_run_self}

-- A renewal is a transition of at most one row.
renew_rows-miss :
    (k w l now : ℕ) (runs : List AgentRun)
    → find_run k runs ≡ none
    → map (λ run. if is_renewable k w now run then renewed_run l now run else run) runs ≡ runs
renew_rows-miss k w l now [] h = refl
renew_rows-miss k w l now (r ∷ runs) h = ground (arith, renew_rows-miss k w l now runs)

renew_rows-hit :
    (k w l now : ℕ) (runs : List AgentRun) (run : AgentRun)
    → Distinct runs
    → find_run k runs ≡ some run
    → is_renewable k w now run ≡ true
    → map (λ r. if is_renewable k w now r then renewed_run l now r else r) runs
      ≡ put_run (renewed_run l now run) runs
unfolding renewed_run
renew_rows-hit k w l now [] run d h t = absurd (ground arith)
renew_rows-hit k w l now (r ∷ runs) run d h t = ground (
  arith,
  find_run-id k (r ∷ runs) h,
  renew_rows-miss k w l now runs,
  renew_rows-hit k w l now runs run d.1,
)

renew_rows-refused :
    (k w l now : ℕ) (runs : List AgentRun) (run : AgentRun)
    → Distinct runs
    → find_run k runs ≡ some run
    → is_renewable k w now run ≡ false
    → map (λ r. if is_renewable k w now r then renewed_run l now r else r) runs ≡ runs
renew_rows-refused k w l now [] run d h t = absurd (ground arith)
renew_rows-refused k w l now (r ∷ runs) run d h t =
    ground (arith, renew_rows-miss k w l now runs, renew_rows-refused k w l now runs run d.1)

pub renew_lease-Writes :
    (db : Db) (k w l now : ℕ) → DbIsValid db → Writes db (renew_lease db k w l now).1
unfolding renew_lease
renew_lease-Writes db k w l now v = elim (Option-cases (find_run k db.runs)) [
  | inl missing ↦ next here (touch (renew_rows-miss k w l now db.runs missing) refl)
  | inr (run, found) ↦ elim (Bool-cases (is_renewable k w now run)) [
    | inl own ↦ next here (
        change run (renewed_run l now run) (find_run_self db k run found)
          (renew l now (ground arith) refl) (renew_rows-hit k w l now db.runs run v.keys found own)
          refl)
    | inr lost ↦ next here (touch (renew_rows-refused k w l now db.runs run v.keys found lost) refl)
  ]
]

-- How many rows a renewal meets.
renewable-miss :
    (k w now : ℕ) (runs : List AgentRun)
    → find_run k runs ≡ none
    → keep_if (λ r. is_renewable k w now r) runs ≡ []
renewable-miss k w now [] h = refl
renewable-miss k w now (r ∷ runs) h = ground (arith, renewable-miss k w now runs)

renewable_one :
    (k w now : ℕ) (runs : List AgentRun) (run : AgentRun)
    → Distinct runs
    → find_run k runs ≡ some run
    → (length (keep_if (λ r. is_renewable k w now r) runs) == 1) ≡ owns run w now
renewable_one k w now [] run d h = absurd (ground arith)
renewable_one k w now (r ∷ runs) run d h = ground (
  arith,
  find_run-id k (r ∷ runs) h,
  renewable-miss k w now runs,
  renewable_one k w now runs run d.1,
)

put_found :
    (k : ℕ) (row run : AgentRun) (db : Db)
    → find_run k db.runs ≡ some run
    → row.id ≡ run.id
    → find_run k (put_run row db.runs) ≡ some row
put_found k row run db found same =
    rw (← find_run-id k db.runs found, ← same)
      (find_run-put_run_self row db.runs {run = run} (rw same (find_run_self db k run found)))

renewed_run-id : (l now : ℕ) (run : AgentRun) → (renewed_run l now run).id ≡ run.id
unfolding renewed_run
renewed_run-id l now run = refl

-- A renewal says whether the Worker still holds the lease at that moment, and extends it from then
-- on, exactly if it does; otherwise the row stays.
pub renew_lease-extends :
    (db : Db) (k w l now : ℕ) (run : AgentRun)
    → DbIsValid db
    → find_run k db.runs ≡ some run
    → ((renew_lease db k w l now).0 ≡ owns run w now)
      × (find_run k (renew_lease db k w l now).1.runs
          ≡ some (if owns run w now then renewed_run l now run else run))
unfolding renew_lease
renew_lease-extends db k w l now run v found = (
  renewable_one k w now db.runs run v.keys found,
  elim (Bool-cases (owns run w now)) [
    | inl mine ↦
        let id = find_run-id k db.runs found in
        ap (find_run k) (renew_rows-hit k w l now db.runs run v.keys found (ground arith))
        ∙ put_found k (renewed_run l now run) run db found (renewed_run-id l now run)
        ∙ ap some (sym (if_true _ _ mine))
    | inr lost ↦
        ap (find_run k) (renew_rows-refused k w l now db.runs run v.keys found (ground arith))
        ∙ found
        ∙ ap some (sym (if_false _ _ lost))
  ],
)
