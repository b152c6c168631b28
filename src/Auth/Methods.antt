-- ===== src/Auth/Methods.antt =====
-- app/auth.py: the methods one after another, and what each does to the sessions.
use diy_agent.Prelude.{
  ℕ, ◌-◌, ◌≡◌, refl, sym, subst, String, Option, none, some, List, [], ◌∷◌, ◌++◌, Bool, ◌==◌, inl,
  inr, text_eq, first, Option-cases, Bool-cases, if_true, if_false, leb,
}
use diy_agent.Auth.Emails.{AuthRuntime, normalize_email}
use diy_agent.Auth.Service.{
  User, AuthSession, AuthDb, AuthError, Answer, email_already_registered, server_error, Draw,
  session_clashes, user_clashes, new_user, new_session, add_session, register, check_credentials,
  login, is_usable, seen, put_session, current_user, is_revocable, revoke,
}
use diy_agent.Auth.Writes.{SessionWrite, same, add, change, if-SessionWrite}

-- A call of a method.
pub data AuthAction : Type 0 where
  registration : String → String → Draw → AuthAction
  sign_in : String → String → Draw → AuthAction
  request : Option String → ℕ → AuthAction
  sign_out : Option String → ℕ → AuthAction

module _ (rt : AuthRuntime) (lifetime : ℕ) (dummy_hash : String) where
  -- The tables after a call.
  unfoldable pub perform : AuthAction → AuthDb → AuthDb
  unfolding register login current_user revoke
  perform (AuthAction.registration email password draw) db =
      (register rt lifetime email password draw db).1
  perform (AuthAction.sign_in email password draw) db =
      (login rt lifetime dummy_hash email password draw db).1
  perform (AuthAction.request raw_token now) db = (current_user rt lifetime raw_token now db).1
  perform (AuthAction.sign_out raw_token now) db = revoke rt lifetime raw_token now db

  unfoldable pub perform_all : List AuthAction → AuthDb → AuthDb
  unfolding perform
  perform_all [] db = db
  perform_all (action ∷ rest) db = perform_all rest (perform action db)

  add_session-SessionWrite :
      (user : User) (draw : Draw) (error : AuthError) (before db : AuthDb)
      → before.sessions ≡ db.sessions
      → SessionWrite before.sessions (add_session rt lifetime user draw error before db).1.sessions
  unfolding add_session
  add_session-SessionWrite user draw error before db e =
      let new = new_session rt lifetime user.id draw in
      elim (Bool-cases (session_clashes new db.sessions)) [
        | inl taken ↦
            subst
              (λ (r : Answer (User × String) × AuthDb). SessionWrite before.sessions r.1.sessions)
              (sym (if_true _ _ taken)) same
        | inr free ↦
            subst
              (λ (r : Answer (User × String) × AuthDb). SessionWrite before.sessions r.1.sessions)
              (sym (if_false _ _ free))
              (subst (λ s. SessionWrite s (db.sessions ++ new ∷ [])) (sym e) (add new free))
      ]

  register-SessionWrite :
      (email password : String) (draw : Draw) (db : AuthDb)
      → SessionWrite db.sessions (register rt lifetime email password draw db).1.sessions
  unfolding register
  register-SessionWrite email password draw db = elim (Option-cases (normalize_email rt email)) [
    | inl invalid ↦ rw (invalid, register) same
    | inr (normalized, e) ↦
        let user = new_user rt lifetime normalized password draw in
        rw (e, register)
          (if-SessionWrite (user_clashes user db.users) _ _ same (
            add_session-SessionWrite user draw email_already_registered db
              (record db { users = db.users ++ user ∷ [] }) refl))
  ]

  login-SessionWrite :
      (email password : String) (draw : Draw) (db : AuthDb)
      → SessionWrite db.sessions (login rt lifetime dummy_hash email password draw db).1.sessions
  unfolding login
  login-SessionWrite email password draw db = elim (Option-cases (normalize_email rt email)) [
    | inl invalid ↦ rw (invalid, login) same
    | inr (normalized, e) ↦
        elim (Option-cases (check_credentials rt lifetime dummy_hash normalized password db)) [
          | inl wrong ↦ rw (e, wrong, login) same
          | inr (user, fine) ↦
              rw (e, fine, login) (add_session-SessionWrite user draw server_error db db refl)
        ]
  ]

  seen-SessionWrite :
      (test : AuthSession → Bool) (now : ℕ) (row : AuthSession) (sessions : List AuthSession)
      → first test sessions ≡ some row
      → SessionWrite sessions (put_session (seen now row) sessions)
  seen-SessionWrite test now row sessions found =
      elim (Bool-cases (leb 300 (now - row.last_seen_at))) [
        | inl late ↦
            subst (λ r. SessionWrite sessions (put_session r sessions)) (sym (if_true _ _ late))
              (change test row (record row { last_seen_at = now }) found (refl, refl) (inr refl))
        | inr early ↦
            subst (λ r. SessionWrite sessions (put_session r sessions)) (sym (if_false _ _ early))
              (change test row row found (refl, refl) (inr refl))
      ]

  current_user-SessionWrite :
      (raw_token : Option String) (now : ℕ) (db : AuthDb)
      → SessionWrite db.sessions (current_user rt lifetime raw_token now db).1.sessions
  unfolding current_user
  current_user-SessionWrite none now db = same
  current_user-SessionWrite (some raw_token) now db =
      if-SessionWrite (text_eq raw_token "") _ _ same
        (elim (Option-cases (first (is_usable rt lifetime raw_token now) db.sessions)) [
          | inl missing ↦ rw missing same
          | inr (row, e) ↦
              elim (Option-cases (first (λ (user : User). user.id == row.user_id) db.users)) [
                | inl nobody ↦ rw (e, nobody) same
                | inr (user, found) ↦
                    rw (e, found)
                      (if-SessionWrite user.is_active _ _
                        (seen-SessionWrite (is_usable rt lifetime raw_token now) now row db.sessions
                          e)
                        same)
              ]
        ])

  pub revoke-SessionWrite :
      (raw_token : Option String) (now : ℕ) (db : AuthDb)
      → SessionWrite db.sessions (revoke rt lifetime raw_token now db).sessions
  unfolding revoke
  revoke-SessionWrite none now db = same
  revoke-SessionWrite (some raw_token) now db = elim (Bool-cases (text_eq raw_token "")) [
    | inl empty ↦
        subst (λ (d : AuthDb). SessionWrite db.sessions d.sessions) (sym (if_true _ _ empty)) same
    | inr given ↦
        subst (λ (d : AuthDb). SessionWrite db.sessions d.sessions) (sym (if_false _ _ given))
          (elim (Option-cases (first (is_revocable rt lifetime raw_token) db.sessions)) [
            | inl missing ↦ rw missing same
            | inr (row, e) ↦ rw e (
                change (is_revocable rt lifetime raw_token) row
                  (record row { revoked_at = some now }) e (refl, refl) (inl refl))
          ])
  ]

  pub perform-SessionWrite :
      (action : AuthAction) (db : AuthDb) → SessionWrite db.sessions (perform action db).sessions
  unfolding perform
  perform-SessionWrite (AuthAction.registration email password draw) db =
      register-SessionWrite email password draw db
  perform-SessionWrite (AuthAction.sign_in email password draw) db =
      login-SessionWrite email password draw db
  perform-SessionWrite (AuthAction.request raw_token now) db =
      current_user-SessionWrite raw_token now db
  perform-SessionWrite (AuthAction.sign_out raw_token now) db = revoke-SessionWrite raw_token now db
