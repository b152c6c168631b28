-- ===== src/Auth/Logins.antt =====
-- app/auth.py: the token that `login` gives is the user's.
use diy_agent.Prelude.{
  ℕ, ◌+◌, ◌<◌, ◌≡◌, refl, sym, subst, ap, ◌∙◌, String, some, List, [], ◌∷◌, ◌++◌, Bool, true, false,
  ◌==◌, inl, inr, arith, text_eq, text_eq_sym, ◌||◌, not, first, Option-cases, Bool-cases, if_true,
  if_false,
}
use text.Mathlib.TextEquality.{eq_iff}
use diy_agent.Prelude.Tables.{RowsDiffer, first-key}
use diy_agent.Auth.Emails.{AuthRuntime, normalize_email}
use diy_agent.Auth.Service.{
  User, AuthSession, AuthDb, AuthError, Answer, granted, refused, Draw, server_error,
  session_clashes, hash_session_token, new_session, add_session, check_credentials, login,
  is_usable, current_user,
}

-- Whether a user keeps another out.
abbrev pub user_clash : User → User → Bool
user_clash new user = user.id == new.id || text_eq user.email new.email

abbrev pub user_id_of : User → ℕ
user_id_of user = user.id

abbrev pub UsersDiffer : List User → Type 0
UsersDiffer users = RowsDiffer user_id_of user_clash users

user_clash_sym : (a b : User) → user_clash a b ≡ user_clash b a
user_clash_sym a b = let texts = text_eq_sym a.email b.email in ground arith

user_clash_key : (a b : User) → (user_id_of a == user_id_of b) ≡ true → user_clash b a ≡ true
user_clash_key a b h = ground arith

owner : User → Answer (User × String) → User
owner other (granted (user, token)) = user
owner other (refused e) = other

token_of : String → Answer (User × String) → String
token_of other (granted (user, token)) = token
token_of other (refused e) = other

module _ (rt : AuthRuntime) (lifetime : ℕ) where
  -- The session of a fresh token is the one that a request with it finds.
  added_is_found :
      (new : AuthSession) (raw_token : String) (now : ℕ) (sessions : List AuthSession)
      → new.token_hash ≡ hash_session_token rt lifetime raw_token
      → session_clashes new sessions ≡ false
      → is_usable rt lifetime raw_token now new ≡ true
      → first (is_usable rt lifetime raw_token now) (sessions ++ new ∷ []) ≡ some new
  added_is_found new raw_token now [] e free usable = if_true _ _ usable
  added_is_found new raw_token now (row ∷ rows) e free usable =
      let differs : text_eq row.token_hash new.token_hash ≡ false = ground arith in
      let other : text_eq row.token_hash (hash_session_token rt lifetime raw_token) ≡ false =
        subst (λ t. text_eq row.token_hash t ≡ false) e differs in
      let unfit : is_usable rt lifetime raw_token now row ≡ false = ground arith in
      if_false _ _ unfit ∙ added_is_found new raw_token now rows e (ground arith) usable

  add_session-granted :
      (user found : User) (token : String) (draw : Draw) (error : AuthError) (db : AuthDb)
      → (add_session rt lifetime user draw error db db).0 ≡ granted (found, token)
      → (user ≡ found)
        × (draw.token ≡ token)
        × (session_clashes (new_session rt lifetime user.id draw) db.sessions ≡ false)
        × ((add_session rt lifetime user draw error db db).1
            ≡ record db { sessions = db.sessions ++ new_session rt lifetime user.id draw ∷ [] })
  unfolding add_session owner token_of
  add_session-granted user found token draw error db h =
      elim (Bool-cases (session_clashes (new_session rt lifetime user.id draw) db.sessions)) [
        | inl taken ↦ absurd (
            ground (
              arith,
              sym (ap (λ (r : Answer (User × String) × AuthDb). r.0) (if_true _ _ taken)) ∙ h,
            ))
        | inr free ↦
            let e : granted (user, draw.token) ≡ granted (found, token) =
              sym (ap (λ (r : Answer (User × String) × AuthDb). r.0) (if_false _ _ free)) ∙ h in
            (
              ap (owner user) e,
              ap (token_of draw.token) e,
              free,
              ap (λ (r : Answer (User × String) × AuthDb). r.1) (if_false _ _ free),
            )
      ]

  check_credentials-some :
      (dummy_hash normalized password : String) (db : AuthDb) {user : User}
      → check_credentials rt lifetime dummy_hash normalized password db ≡ some user
      → (first (λ (u : User). text_eq u.email normalized) db.users ≡ some user)
        × (user.is_active ≡ true)
        × (rt.verify user.password_hash password ≡ true)
  unfolding check_credentials
  check_credentials-some dummy_hash normalized password db {user} h =
      elim (Option-cases (first (λ (u : User). text_eq u.email normalized) db.users)) [
        | inl nobody ↦ absurd (ground (arith, rw (nobody, check_credentials) at h))
        | inr (u, e) ↦
            elim (Bool-cases (not u.is_active || not (rt.verify u.password_hash password))) [
              | inl bad ↦
                  absurd (ground (arith, sym (if_true _ _ bad) ∙ rw (e, check_credentials) at h))
              | inr fine ↦
                  let it : u ≡ user =
                    cc (sym (if_false _ _ fine) ∙ rw (e, check_credentials) at h) in
                  subst
                    (λ (w : User).
                      (first (λ (v : User). text_eq v.email normalized) db.users ≡ some w)
                      × (w.is_active ≡ true)
                      × (rt.verify w.password_hash password ≡ true))
                    it (e, ground arith, ground arith)
            ]
      ]

  session_serves :
      (user : User) (draw : Draw) (now : ℕ) (db : AuthDb)
      → first (λ (u : User). u.id == user.id) db.users ≡ some user
      → user.is_active ≡ true
      → session_clashes (new_session rt lifetime user.id draw) db.sessions ≡ false
      → text_eq draw.token "" ≡ false
      → now < draw.now + lifetime
      → (current_user rt lifetime
          (some draw.token)
          now
          (record db { sessions = db.sessions ++ new_session rt lifetime user.id draw ∷ [] })).0
        ≡ granted user
  unfolding current_user
  session_serves user draw now db found active free given soon =
      let new = new_session rt lifetime user.id draw in
      let same = (eq_iff new.token_hash new.token_hash).1 refl in
      let usable : is_usable rt lifetime draw.token now new ≡ true = ground arith in
      let e = added_is_found new draw.token now db.sessions refl free usable in
      ap (λ (r : Answer User × AuthDb). r.0) (if_false _ _ given)
      ∙ rw (e, found) (ap (λ (r : Answer User × AuthDb). r.0) (if_true _ _ active))

  -- In a table of users without doubles, where `login` gives a user and a token that is not empty,
  -- the user is active and the password is that of the user, and at any time within the lifetime
  -- of the session a request with that token is one of this user.
  pub login-current_user :
      (dummy_hash email password : String) (draw : Draw) (db : AuthDb) (user : User)
      (token : String) (now : ℕ)
      → UsersDiffer db.users
      → (login rt lifetime dummy_hash email password draw db).0 ≡ granted (user, token)
      → text_eq token "" ≡ false
      → now < draw.now + lifetime
      → (user.is_active ≡ true)
        × (rt.verify user.password_hash password ≡ true)
        × ((current_user rt lifetime
              (some token)
              now
              (login rt lifetime dummy_hash email password draw db).1).0
            ≡ granted user)
  unfolding login
  login-current_user dummy_hash email password draw db user token now u h given soon =
      elim (Option-cases (normalize_email rt email)) [
        | inl invalid ↦ absurd (ground (arith, rw (invalid, login) at h))
        | inr (normalized, e) ↦
            elim (Option-cases (check_credentials rt lifetime dummy_hash normalized password db)) [
              | inl wrong ↦ absurd (ground (arith, rw (e, wrong, login) at h))
              | inr (who, fine) ↦
                  let (found, active, verified) =
                    check_credentials-some dummy_hash normalized password db {user = who} fine in
                  let (it, drawn, free, after) =
                    add_session-granted who user token draw server_error db
                      (rw (e, fine, login) at h) in
                  let by_id =
                    first-key user_id_of user_clash user_clash_sym user_clash_key
                      (λ (v : User). text_eq v.email normalized) db.users {found = who} u found in
                  let serves =
                    session_serves who draw now db by_id active free
                      (ap (λ t. text_eq t "") drawn ∙ given) soon in
                  let later : AuthDb = record db {
                    sessions = db.sessions ++ new_session rt lifetime who.id draw ∷ [];
                  } in
                  (
                    subst (λ (w : User). w.is_active ≡ true) it active,
                    subst (λ (w : User). rt.verify w.password_hash password ≡ true) it verified,
                    rw (e, fine, login)
                        (ap (λ d. (current_user rt lifetime (some token) now d).0) after
                          ∙ ap (λ t. (current_user rt lifetime (some t) now later).0) (sym drawn)
                          ∙ serves
                          ∙ ap granted it),
                  )
            ]
      ]
