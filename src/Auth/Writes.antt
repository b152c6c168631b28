-- ===== src/Auth/Writes.antt =====
-- app/auth.py: what the methods do to the table of sessions.
use diy_agent.Prelude.{
  ℕ, ◌≡◌, ◌⊎◌, refl, subst, ap, ◌∙◌, String, some, List, [], ◌∷◌, ◌++◌, Bool, true, false, ◌||◌,
  ◌==◌, inl, inr, arith, text_eq, text_eq_sym, any_of, first, All, All-imp, All-append, Bool-cases,
  if◌then◌else◌,
}
use diy_agent.Prelude.Tables.{
  first-All, RowsDiffer, put_row-All, append-RowsDiffer, put_row-RowsDiffer, put_row-any_of,
  any_of-append,
}
use text.Mathlib.TextEquality.{eq_iff}
use diy_agent.Auth.Service.{AuthSession, AuthDb, session_clashes, not_revoked, put_session}

abbrev pub id_of : AuthSession → ℕ
id_of row = row.id

-- Whether a session keeps another out.
abbrev pub session_clash : AuthSession → AuthSession → Bool
session_clash new row = row.id == new.id || text_eq row.token_hash new.token_hash

abbrev pub SessionsDiffer : List AuthSession → Type 0
SessionsDiffer sessions = RowsDiffer id_of session_clash sessions

pub session_clash_sym : (a b : AuthSession) → session_clash a b ≡ session_clash b a
session_clash_sym a b = let texts = text_eq_sym a.token_hash b.token_hash in ground arith

pub session_clash_key : (a b : AuthSession) → (id_of a == id_of b) ≡ true → session_clash b a ≡ true
session_clash_key a b h = ground arith

-- The token with this hash has sessions, and all of them are revoked.
abbrev pub IsEnded : String → List AuthSession → Type 0
IsEnded hash sessions =
    All
      (λ (row : AuthSession).
        (text_eq row.token_hash hash ≡ false) ⊎ (not_revoked row.revoked_at ≡ false))
      sessions
    × (any_of (λ (row : AuthSession). text_eq row.token_hash hash) sessions ≡ true)

-- What a method does to the sessions: nothing, a new one, or a change of one that a query found.
pub data SessionWrite (sessions : List AuthSession) : List AuthSession → Type 0 where
  same : SessionWrite sessions sessions
  add :
      (new : AuthSession)
      → session_clashes new sessions ≡ false
      → SessionWrite sessions (sessions ++ new ∷ [])
  change :
      (test : AuthSession → Bool) (old changed : AuthSession)
      → first test sessions ≡ some old
      → (changed.id ≡ old.id) × (changed.token_hash ≡ old.token_hash)
      → (not_revoked changed.revoked_at ≡ false) ⊎ (changed.revoked_at ≡ old.revoked_at)
      → SessionWrite sessions (put_session changed sessions)

pub change_clash :
    (old changed row : AuthSession)
    → (changed.id ≡ old.id) × (changed.token_hash ≡ old.token_hash)
    → session_clash row changed ≡ session_clash row old
change_clash old changed row (i, t) = rw (i, t) refl

pub SessionWrite-SessionsDiffer :
    {sessions after : List AuthSession}
    → SessionWrite sessions after
    → SessionsDiffer sessions
    → SessionsDiffer after
SessionWrite-SessionsDiffer same u = u
SessionWrite-SessionsDiffer {sessions = sessions} (add new free) u =
    append-RowsDiffer id_of session_clash session_clash_sym session_clash_key new sessions u free
SessionWrite-SessionsDiffer {sessions = sessions} (change test old changed found identity more) u =
    put_row-RowsDiffer id_of session_clash session_clash_sym session_clash_key test old changed
      identity.0 (λ row. change_clash old changed row identity) sessions u found

no_hash :
    (new : AuthSession) (sessions : List AuthSession)
    → session_clashes new sessions ≡ false
    → any_of (λ (row : AuthSession). text_eq row.token_hash new.token_hash) sessions ≡ false
no_hash new [] free = refl
no_hash new (row ∷ rows) free = let rest = no_hash new rows in ground arith

fresh_hash :
    (hash : String) (new : AuthSession) (sessions : List AuthSession)
    → session_clashes new sessions ≡ false
    → any_of (λ (row : AuthSession). text_eq row.token_hash hash) sessions ≡ true
    → text_eq new.token_hash hash ≡ false
fresh_hash hash new sessions free any = elim (Bool-cases (text_eq new.token_hash hash)) [
  | inr apart ↦ apart
  | inl it ↦
      let none_there =
        subst (λ t. any_of (λ (row : AuthSession). text_eq row.token_hash t) sessions ≡ false)
          ((eq_iff new.token_hash hash).0 it) (no_hash new sessions free) in
      absurd (ground (arith, any, none_there))
]

-- Of a session: that it is another token's, or revoked.
abbrev pub OtherOrRevoked : String → AuthSession → Type 0
OtherOrRevoked hash row =
    (text_eq row.token_hash hash ≡ false) ⊎ (not_revoked row.revoked_at ≡ false)

change-OtherOrRevoked :
    (hash : String) (old changed : AuthSession)
    → (changed.id ≡ old.id) × (changed.token_hash ≡ old.token_hash)
    → (not_revoked changed.revoked_at ≡ false) ⊎ (changed.revoked_at ≡ old.revoked_at)
    → OtherOrRevoked hash old
    → OtherOrRevoked hash changed
change-OtherOrRevoked hash old changed (i, t) (inl revoked) h = inr revoked
change-OtherOrRevoked hash old changed (i, t) (inr kept) (inl apart) =
    inl (ap (λ s. text_eq s hash) t ∙ apart)
change-OtherOrRevoked hash old changed (i, t) (inr kept) (inr revoked) =
    inr (ap not_revoked kept ∙ revoked)

pub SessionWrite-IsEnded :
    {sessions after : List AuthSession} (hash : String)
    → SessionWrite sessions after
    → SessionsDiffer sessions
    → IsEnded hash sessions
    → IsEnded hash after
SessionWrite-IsEnded hash same u h = h
SessionWrite-IsEnded {sessions = sessions} hash (add new free) u (all, any) = (
  All-append _ sessions (new ∷ []) all (inl (fresh_hash hash new sessions free any), tt),
  any_of-append (λ (row : AuthSession). text_eq row.token_hash hash) sessions (new ∷ [])
      ∙ ap (λ b. b || any_of (λ (row : AuthSession). text_eq row.token_hash hash) (new ∷ [])) any,
)
SessionWrite-IsEnded {sessions = sessions} hash (change test old changed found identity more) u
      (all, any) =
    (
      put_row-All id_of session_clash (OtherOrRevoked hash) changed sessions
          (change-OtherOrRevoked hash old changed identity more
            (first-All (OtherOrRevoked hash) test sessions {found = old} all found))
          (All-imp sessions (λ r p. inr p) all),
      put_row-any_of id_of session_clash session_clash_sym session_clash_key test old changed
            identity.0 (λ row. change_clash old changed row identity)
            (λ (row : AuthSession). text_eq row.token_hash hash) sessions u found
            (ap (λ t. text_eq t hash) identity.1)
          ∙ any,
    )

pub if-SessionWrite :
    {sessions : List AuthSession} {A : Type 0} (test : Bool) (a b : A × AuthDb)
    → SessionWrite sessions a.1.sessions
    → SessionWrite sessions b.1.sessions
    → SessionWrite sessions (if test then a else b).1.sessions
if-SessionWrite true a b ha hb = ha
if-SessionWrite false a b ha hb = hb
