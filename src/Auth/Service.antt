-- ===== src/Auth/Service.antt =====
-- app/auth.py: `AuthService`, and the tables `User` and `AuthSession` of app/models.py.
use diy_agent.Prelude.{
  ℕ, ◌+◌, ◌-◌, String, Option, none, some, List, [], ◌∷◌, ◌++◌, Bool, true, false, not, ◌&&◌, ◌||◌,
  leb, ltb, ◌==◌, text_eq, any_of, first, map, if◌then◌else◌,
}
use diy_agent.Auth.Emails.{AuthRuntime, normalize_email}

pub record User : Type 0 where
  pub id : ℕ
  pub email : String
  pub password_hash : String
  pub is_active : Bool
  pub created_at : ℕ
  pub updated_at : ℕ

pub record AuthSession : Type 0 where
  pub id : ℕ
  pub user_id : ℕ
  pub token_hash : String
  pub expires_at : ℕ
  pub revoked_at : Option ℕ
  pub created_at : ℕ
  pub last_seen_at : ℕ

pub record AuthDb : Type 0 where
  pub users : List User
  pub sessions : List AuthSession

-- The `ApiError` that a method raises. A token that is there already, for which `login` raises the
-- database's own error, is a `server_error`.
pub data AuthError : Type 0 where
  invalid_email email_already_registered invalid_credentials authentication_required server_error :
      AuthError

pub data Answer (A : Type 0) : Type 0 where
  granted : A → Answer A
  refused : AuthError → Answer A

-- What a method takes from the clock, from `secrets` and from `uuid4`.
pub record Draw : Type 0 where
  pub now : ℕ
  pub token : String
  pub salt : ℕ
  pub user_id : ℕ
  pub session_id : ℕ

-- The constraints of `users`, and of `auth_sessions`.
abbrev pub user_clashes : User → List User → Bool
user_clashes new users = any_of (λ user. user.id == new.id || text_eq user.email new.email) users

abbrev pub session_clashes : AuthSession → List AuthSession → Bool
session_clashes new sessions =
    any_of (λ row. row.id == new.id || text_eq row.token_hash new.token_hash) sessions

-- `revoked_at IS NULL`
abbrev pub not_revoked : Option ℕ → Bool
not_revoked none = true
not_revoked (some at) = false

-- The update of `last_seen_at`, five minutes after the last one.
abbrev pub seen : ℕ → AuthSession → AuthSession
seen now row = if leb 300 (now - row.last_seen_at) then record row { last_seen_at = now } else row

abbrev pub put_session : AuthSession → List AuthSession → List AuthSession
put_session changed sessions =
    map (λ (row : AuthSession). if row.id == changed.id then changed else row) sessions

module _ (rt : AuthRuntime) (lifetime : ℕ) where
  -- `hash_session_token`
  abbrev pub hash_session_token : String → String
  hash_session_token token = rt.sha256_hex token

  abbrev pub new_user : String → String → Draw → User
  new_user email password draw = record {
    id = draw.user_id;
    email = email;
    password_hash = rt.hash draw.salt password;
    is_active = true;
    created_at = draw.now;
    updated_at = draw.now;
  }

  abbrev pub new_session : ℕ → Draw → AuthSession
  new_session user_id draw = record {
    id = draw.session_id;
    user_id = user_id;
    token_hash = hash_session_token draw.token;
    expires_at = draw.now + lifetime;
    revoked_at = none;
    created_at = draw.now;
    last_seen_at = draw.now;
  }

  -- The insertion of a session, and what is raised where the database refuses it.
  unfoldable pub add_session :
      User → Draw → AuthError → AuthDb → AuthDb → Answer (User × String) × AuthDb
  add_session user draw error before db =
      let new = new_session user.id draw in
      if session_clashes new db.sessions
      then (refused error, before)
      else (granted (user, draw.token), record db { sessions = db.sessions ++ new ∷ [] })

  -- `register`
  unfoldable pub register : String → String → Draw → AuthDb → Answer (User × String) × AuthDb
  unfolding add_session normalize_email
  register email password draw db = elim (normalize_email rt email) [
    | none ↦ (refused invalid_email, db)
    | some normalized ↦
        let user = new_user normalized password draw in
        if user_clashes user db.users
        then (refused email_already_registered, db)
        else add_session user draw email_already_registered db
            (record db { users = db.users ++ user ∷ [] })
  ]

  -- The check of `login`: with an unknown address a dummy hash is verified all the same.
  unfoldable pub check_credentials : String → String → String → AuthDb → Option User
  check_credentials dummy_hash normalized password db =
      elim (first (λ (user : User). text_eq user.email normalized) db.users) [
        | none ↦ none
        | some user ↦
            if not user.is_active || not (rt.verify user.password_hash password)
            then none
            else some user
      ]

  -- `login`
  unfoldable pub login : String → String → String → Draw → AuthDb → Answer (User × String) × AuthDb
  unfolding check_credentials add_session normalize_email
  login dummy_hash email password draw db = elim (normalize_email rt email) [
    | none ↦ (refused invalid_email, db)
    | some normalized ↦ elim (check_credentials dummy_hash normalized password db) [
      | none ↦ (refused invalid_credentials, db)
      | some user ↦ add_session user draw server_error db db
    ]
  ]

  -- The query of `current_user`.
  abbrev pub is_usable : String → ℕ → AuthSession → Bool
  is_usable raw_token now row =
      text_eq row.token_hash (hash_session_token raw_token)
      && not_revoked row.revoked_at
      && ltb now row.expires_at

  -- `current_user`
  unfoldable pub current_user : Option String → ℕ → AuthDb → Answer User × AuthDb
  current_user none now db = (refused authentication_required, db)
  current_user (some raw_token) now db =
      if text_eq raw_token ""
      then (refused authentication_required, db)
      else elim (first (is_usable raw_token now) db.sessions) [
        | none ↦ (refused authentication_required, db)
        | some row ↦ elim (first (λ (user : User). user.id == row.user_id) db.users) [
          | none ↦ (refused authentication_required, db)
          | some user ↦
              if user.is_active
              then (granted user, record db { sessions = put_session (seen now row) db.sessions })
              else (refused authentication_required, db)
        ]
      ]

  -- The query of `revoke`.
  abbrev pub is_revocable : String → AuthSession → Bool
  is_revocable raw_token row =
      text_eq row.token_hash (hash_session_token raw_token) && not_revoked row.revoked_at

  -- `revoke`
  unfoldable pub revoke : Option String → ℕ → AuthDb → AuthDb
  revoke none now db = db
  revoke (some raw_token) now db =
      if text_eq raw_token "" then db else elim (first (is_revocable raw_token) db.sessions) [
        | none ↦ db
        | some row ↦ record db {
          sessions = put_session (record row { revoked_at = some now }) db.sessions;
        }
      ]

-- `tokens_match`
unfoldable pub tokens_match : Option String → Option String → Bool
tokens_match none header_token = false
tokens_match (some cookie) none = false
tokens_match (some cookie) (some header) =
    not (text_eq cookie "") && not (text_eq header "") && text_eq cookie header
