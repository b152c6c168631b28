-- ===== src/Store/History/Replay.antt =====
-- What the SSE endpoint replays from the log.
use diy_agent.Prelude.{
  ℕ, zero, suc, ◌+◌, ◌-◌, ◌≤◌, ◌≡◌, refl, ap, ◌∙◌, Python, List, [], ◌∷◌, ◌++◌, Bool, ◌&&◌, ltb,
  ◌==◌, keep_if, keep_if-append, map, drop, length, length-map, length-drop, arith,
}
use diy_agent.Models.{Db, RunEvent}
use diy_agent.Store.Events.{latest_sequence, by_sequence, read_events_after}
use diy_agent.Store.Writes.{DbIsValid, CountsFrom}
use diy_agent.Store.Writes.Sequences.{latest_sequence-length}
use diy_agent.Store.Writes.Log.{Writes-log}
use diy_agent.Store.History.{History}
use diy_agent.Store.History.Safety.{History-Writes, History-IsValid}

-- The events of a Run, in the order of the log.
abbrev pub events_of : ℕ → Db → List RunEvent
events_of k db = keep_if (λ event. event.run_id == k) db.events

abbrev pub numbers : List RunEvent → List ℕ
numbers = map (λ event. event.sequence)

-- Counted events are in order.
by_sequence-counted : (n : ℕ) (xs : List RunEvent) → CountsFrom n (numbers xs) → by_sequence xs ≡ xs
by_sequence-counted n [] c = refl
by_sequence-counted n (x ∷ []) c = refl
by_sequence-counted n (x ∷ y ∷ ys) c = rw (by_sequence-counted (suc n) (y ∷ ys) c.1) (ground arith)

-- Past the cursor all of them are kept.
keep_if-all :
    (c n : ℕ) (xs : List RunEvent)
    → c ≤ n
    → CountsFrom n (numbers xs)
    → keep_if (λ event. ltb c event.sequence) xs ≡ xs
keep_if-all c n [] h counts = refl
keep_if-all c n (x ∷ xs) h counts = ground (arith, keep_if-all c (suc n) xs)

-- The events after a cursor are the log without its first entries.
keep_if-drop :
    (n c cursor : ℕ) (xs : List RunEvent)
    → cursor ≡ n + c
    → CountsFrom n (numbers xs)
    → keep_if (λ event. ltb cursor event.sequence) xs ≡ drop c xs
keep_if-drop n zero cursor xs e counts = keep_if-all cursor n xs (omega arith) counts
keep_if-drop n (suc c) cursor [] e counts = refl
keep_if-drop n (suc c) cursor (x ∷ xs) e counts = ground (arith, keep_if-drop (suc n) c cursor xs)

keep_if-both :
    (p q : RunEvent → Bool) (xs : List RunEvent)
    → keep_if (λ e. p e && q e) xs ≡ keep_if q (keep_if p xs)
keep_if-both p q [] = refl
keep_if-both p q (x ∷ xs) = ground (arith, keep_if-both p q xs)

drop-CountsFrom :
    (n c m : ℕ) (xs : List RunEvent)
    → m ≡ n + c
    → CountsFrom n (numbers xs)
    → CountsFrom m (numbers (drop c xs))
drop-CountsFrom n zero m xs e h = let same : m ≡ n = omega arith in rw same h
drop-CountsFrom n (suc c) m [] e h = tt
drop-CountsFrom n (suc c) m (x ∷ xs) e h = drop-CountsFrom (suc n) c m xs (omega arith) h.1

drop-append : {A : Type 0} (xs ys : List A) (n : ℕ) → n ≡ length xs → drop n (xs ++ ys) ≡ ys
drop-append [] ys zero e = refl
drop-append [] ys (suc n) e = absurd (omega arith)
drop-append (x ∷ xs) ys zero e = absurd (omega arith)
drop-append (x ∷ xs) ys (suc n) e = drop-append xs ys n (omega arith)

module _ (db : Db) (k : ℕ) (v : DbIsValid db) where
  -- A read is the Run's log without as many entries as the cursor says.
  pub read-eq-drop : (cursor : ℕ) → (read_events_after db k cursor).0 ≡ drop cursor (events_of k db)
  unfolding read_events_after
  read-eq-drop cursor =
      let kept : keep_if (λ e. e.run_id == k && ltb cursor e.sequence) db.events
          ≡ drop cursor (events_of k db) =
        keep_if-both (λ e. e.run_id == k) (λ e. ltb cursor e.sequence) db.events
        ∙ keep_if-drop 0 cursor cursor (events_of k db) (omega arith) (v.log k) in
      ap by_sequence kept
      ∙ by_sequence-counted cursor (drop cursor (events_of k db))
          (drop-CountsFrom 0 cursor cursor (events_of k db) (omega arith) (v.log k))

  -- In valid tables the events after a cursor are numbered on from the cursor, one by one, and
  -- they are all that there are: as many as the last number exceeds the cursor.
  pub read_numbers :
      (cursor : ℕ)
      → CountsFrom cursor (numbers (read_events_after db k cursor).0)
        × (length (read_events_after db k cursor).0 ≡ latest_sequence k db.events - cursor)
  read_numbers cursor = rw (read-eq-drop cursor) (
    drop-CountsFrom 0 cursor cursor (events_of k db) (omega arith) (v.log k),
    omega (
      arith,
      length-drop cursor (events_of k db),
      latest_sequence-length k db.events (v.log k),
      length-map (λ (e : RunEvent). e.sequence) (events_of k db),
    ),
  )

-- A client that has read all events of a Run, loses the connection and comes back with the last
-- number as its cursor, after any history in between, has then read exactly the events that a
-- client reads who starts anew: none is missed and none comes twice.
pub read_resumes :
    {py : Python} {db after : Db} (k : ℕ)
    → DbIsValid db
    → History py db after
    → (read_events_after db k 0).0 ++ (read_events_after after k (latest_sequence k db.events)).0
      ≡ (read_events_after after k 0).0
read_resumes {py} {db} {after} k v h =
    let v' = History-IsValid v h in
    let (more, grown) = Writes-log (History-Writes v h) in
    let split : events_of k after ≡ events_of k db ++ keep_if (λ e. e.run_id == k) more =
      rw grown (keep_if-append (λ e. e.run_id == k) db.events more) in
    let size : latest_sequence k db.events ≡ length (events_of k db) =
      latest_sequence-length k db.events (v.log k)
      ∙ length-map (λ (e : RunEvent). e.sequence) (events_of k db) in
    rw
      (
        read-eq-drop db k v 0,
        read-eq-drop after k v' (latest_sequence k db.events),
        read-eq-drop after k v' 0,
        split,
        drop-append (events_of k db) (keep_if (λ e. e.run_id == k) more)
            (latest_sequence k db.events) size,
      )
      refl
