-- ===== src/Store/Writes/Sequences.antt =====
-- The numbering of a Run's events under an append.
use diy_agent.Prelude.{
  ℕ, suc, max, ◌+◌, ◌≡◌, inl, inr, List, [], ◌∷◌, ◌++◌, ◌==◌, true, false, length, Bool-cases,
  ==_iff, subst, arith,
}
use diy_agent.Models.{RunEvent}
use diy_agent.Store.Events.{latest_sequence}
use diy_agent.Store.Writes.{sequences, CountsFrom}

pub append-CountsFrom :
    (n s : ℕ) (ss : List ℕ)
    → CountsFrom n ss
    → s ≡ suc (n + length ss)
    → CountsFrom n (ss ++ s ∷ [])
append-CountsFrom n s [] c e = (omega arith, tt)
append-CountsFrom n s (t ∷ ss) c e = (c.0, append-CountsFrom (suc n) s ss c.1 (omega arith))

max-latest_sequence :
    (k n : ℕ) (events : List RunEvent)
    → CountsFrom n (sequences k events)
    → max n (latest_sequence k events) ≡ n + length (sequences k events)
max-latest_sequence k n [] c = omega arith
max-latest_sequence k n (e ∷ events) c =
    ground (arith, max-latest_sequence k (suc n) events, max-latest_sequence k n events)

-- The last number of a gapless log is its length.
pub latest_sequence-length :
    (k : ℕ) (events : List RunEvent)
    → CountsFrom 0 (sequences k events)
    → latest_sequence k events ≡ length (sequences k events)
latest_sequence-length k events c = omega (arith, max-latest_sequence k 0 events c)

pub sequences-append_hit :
    (k : ℕ) (events : List RunEvent) (e : RunEvent)
    → (e.run_id == k) ≡ true
    → sequences k (events ++ e ∷ []) ≡ sequences k events ++ e.sequence ∷ []
sequences-append_hit k [] e h = ground arith
sequences-append_hit k (f ∷ events) e h = ground (arith, sequences-append_hit k events e h)

pub sequences-append_miss :
    (k : ℕ) (events : List RunEvent) (e : RunEvent)
    → (e.run_id == k) ≡ false
    → sequences k (events ++ e ∷ []) ≡ sequences k events
sequences-append_miss k [] e h = ground arith
sequences-append_miss k (f ∷ events) e h = ground (arith, sequences-append_miss k events e h)

-- An event with the next number keeps every Run's log gapless.
pub log-CountsFrom :
    (events : List RunEvent) (e : RunEvent)
    → e.sequence ≡ suc (latest_sequence e.run_id events)
    → ((k : ℕ) → CountsFrom 0 (sequences k events))
    → (k : ℕ) → CountsFrom 0 (sequences k (events ++ e ∷ []))
log-CountsFrom events e h c k = elim (Bool-cases (e.run_id == k)) [
  | inl hit ↦
      let same : e.run_id ≡ k = (==_iff e.run_id k).0 hit in
      let number : e.sequence ≡ suc (latest_sequence k events) =
        subst (λ j. e.sequence ≡ suc (latest_sequence j events)) same h in
      rw (sequences-append_hit k events e hit) (
        append-CountsFrom 0 e.sequence (sequences k events) (c k)
          (omega (arith, latest_sequence-length k events (c k))))
  | inr miss ↦ rw (sequences-append_miss k events e miss) (c k)
]
