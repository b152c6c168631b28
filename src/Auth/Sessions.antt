-- ===== src/Auth/Sessions.antt =====
-- app/auth.py: the session that `revoke` ends.
use diy_agent.Prelude.{
  ℕ, ◌≡◌, ◌⊎◌, refl, sym, subst, ap, ◌∙◌, String, some, List, [], ◌∷◌, true, false, ◌==◌, inl, inr,
  arith, text_eq, any_of, first, All-imp, Option-cases, Bool-cases, if_true, if_false,
}
use diy_agent.Prelude.Tables.{
  first-passes, first-none, none-first, put_row-All, first-apart, put_row-any_of,
}
use text.Mathlib.TextEquality.{eq_iff}
use diy_agent.Auth.Emails.{AuthRuntime}
use diy_agent.Auth.Service.{
  User, AuthSession, AuthDb, Answer, refused, authentication_required, hash_session_token,
  is_usable, put_session, current_user, is_revocable, revoke,
}
use diy_agent.Auth.Writes.{
  id_of, session_clash, session_clash_sym, session_clash_key, SessionsDiffer, IsEnded,
  OtherOrRevoked, SessionWrite-SessionsDiffer, SessionWrite-IsEnded,
}
use diy_agent.Auth.Methods.{
  AuthAction, perform, perform_all, revoke-SessionWrite, perform-SessionWrite,
}

other_token :
    (hash : String) (row r : AuthSession)
    → row.token_hash ≡ hash
    → ((id_of r == id_of row) ≡ true) ⊎ (session_clash row r ≡ false)
    → ((id_of r == id_of row) ≡ true) ⊎ OtherOrRevoked hash r
other_token hash row r mine (inl it) = inl it
other_token hash row r mine (inr apart) =
    let differs : text_eq r.token_hash row.token_hash ≡ false = ground arith in
    inr (inl (subst (λ t. text_eq r.token_hash t ≡ false) mine differs))

module _ (rt : AuthRuntime) (lifetime : ℕ) (dummy_hash : String) where
  perform_all-IsEnded :
      (hash : String) (actions : List AuthAction) (db : AuthDb)
      → SessionsDiffer db.sessions
      → IsEnded hash db.sessions
      → IsEnded hash (perform_all rt lifetime dummy_hash actions db).sessions
  unfolding perform_all
  perform_all-IsEnded hash [] db u h = h
  perform_all-IsEnded hash (action ∷ rest) db u h =
      let w = perform-SessionWrite rt lifetime dummy_hash action db in
      perform_all-IsEnded hash rest (perform rt lifetime dummy_hash action db)
        (SessionWrite-SessionsDiffer w u) (SessionWrite-IsEnded hash w u h)

  revoked-IsEnded :
      (raw_token : String) (now : ℕ) (sessions : List AuthSession) {row : AuthSession}
      → SessionsDiffer sessions
      → first (is_revocable rt lifetime raw_token) sessions ≡ some row
      → any_of
          (λ (r : AuthSession). text_eq r.token_hash (hash_session_token rt lifetime raw_token))
          sessions
        ≡ true
      → IsEnded
          (hash_session_token rt lifetime raw_token)
          (put_session (record row { revoked_at = some now }) sessions)
  revoked-IsEnded raw_token now sessions {row} u e any =
      let hash = hash_session_token rt lifetime raw_token in
      let test = is_revocable rt lifetime raw_token in
      let changed : AuthSession = record row { revoked_at = some now } in
      let passes = first-passes test sessions {found = row} e in
      let mine : row.token_hash ≡ hash = (eq_iff row.token_hash hash).0 (ground arith) in
      (
        put_row-All id_of session_clash (OtherOrRevoked hash) changed sessions (inr refl) (
            All-imp sessions (λ r apart. other_token hash row r mine apart)
              (first-apart id_of session_clash session_clash_sym session_clash_key test sessions
                {found = row} u e)),
        put_row-any_of id_of session_clash session_clash_sym session_clash_key test row changed refl
              (λ r. refl) (λ (r : AuthSession). text_eq r.token_hash hash) sessions u e refl
            ∙ any,
      )

  revoke-IsEnded :
      (raw_token : String) (now : ℕ) (db : AuthDb)
      → SessionsDiffer db.sessions
      → text_eq raw_token "" ≡ false
      → any_of
          (λ (row : AuthSession). text_eq row.token_hash (hash_session_token rt lifetime raw_token))
          db.sessions
        ≡ true
      → IsEnded
          (hash_session_token rt lifetime raw_token)
          (revoke rt lifetime (some raw_token) now db).sessions
  unfolding revoke
  revoke-IsEnded raw_token now db u given any =
      let hash = hash_session_token rt lifetime raw_token in
      subst (λ (d : AuthDb). IsEnded hash d.sessions) (sym (if_false _ _ given))
        (elim (Option-cases (first (is_revocable rt lifetime raw_token) db.sessions)) [
          | inl missing ↦ rw missing (
            All-imp db.sessions (λ row fails. ground arith)
                (first-none (is_revocable rt lifetime raw_token) db.sessions missing),
            any,
          )
          | inr (row, e) ↦ rw e (revoked-IsEnded raw_token now db.sessions u e any)
        ])

  empty_refused :
      (raw_token : String) (now : ℕ) (db : AuthDb)
      → text_eq raw_token "" ≡ true
      → (current_user rt lifetime (some raw_token) now db).0 ≡ refused authentication_required
  unfolding current_user
  empty_refused raw_token now db empty = ap (λ (r : Answer User × AuthDb). r.0) (if_true _ _ empty)

  current_user-IsEnded :
      (raw_token : String) (now : ℕ) (db : AuthDb)
      → IsEnded (hash_session_token rt lifetime raw_token) db.sessions
      → (current_user rt lifetime (some raw_token) now db).0 ≡ refused authentication_required
  unfolding current_user
  current_user-IsEnded raw_token now db ended = elim (Bool-cases (text_eq raw_token "")) [
    | inl empty ↦ ap (λ (r : Answer User × AuthDb). r.0) (if_true _ _ empty)
    | inr given ↦
        ap (λ (r : Answer User × AuthDb). r.0) (if_false _ _ given)
        ∙ rw
            (none-first (is_usable rt lifetime raw_token now) db.sessions (
              All-imp db.sessions
                (λ row (ended_row : OtherOrRevoked (hash_session_token rt lifetime raw_token) row).
                  ground arith)
                ended.0))
            refl
  ]

  -- In a table without doubles, once the session of a token was ended by `revoke`, the token is
  -- refused at any later time, whatever methods are called in between, and whatever tokens they
  -- draw.
  pub revoke-ends :
      (raw_token : String) (revoked_at now : ℕ) (actions : List AuthAction) (db : AuthDb)
      → SessionsDiffer db.sessions
      → any_of
          (λ (row : AuthSession). text_eq row.token_hash (hash_session_token rt lifetime raw_token))
          db.sessions
        ≡ true
      → (current_user rt lifetime (some raw_token) now (
          perform_all rt lifetime dummy_hash actions
            (revoke rt lifetime (some raw_token) revoked_at db))).0
        ≡ refused authentication_required
  revoke-ends raw_token revoked_at now actions db u any = elim (Bool-cases (text_eq raw_token "")) [
    | inl empty ↦ empty_refused raw_token now _ empty
    | inr given ↦
        let ended = revoke rt lifetime (some raw_token) revoked_at db in
        current_user-IsEnded raw_token now (perform_all rt lifetime dummy_hash actions ended) (
          perform_all-IsEnded (hash_session_token rt lifetime raw_token) actions ended
            (SessionWrite-SessionsDiffer
              (revoke-SessionWrite rt lifetime dummy_hash (some raw_token) revoked_at db) u)
            (revoke-IsEnded raw_token revoked_at db u given any))
  ]
