-- ===== src/Examples/Accounts.antt =====
-- Users and the sessions of their browsers.
use diy_agent.Prelude.{◌≡◌, refl, none, some, true, [], ◌∷◌, arith, text_eq, ◌==◌}
use Prim.Native.Char.{code}
use diy_agent.Auth.Emails.{AuthRuntime, normalize_email}
use diy_agent.Auth.Service.{
  User, AuthSession, AuthDb, Draw, granted, refused, authentication_required, login, current_user,
  revoke, check_credentials, add_session,
}
use diy_agent.Auth.Methods.{AuthAction, perform_all}
use diy_agent.Auth.Sessions.{revoke-ends}
use diy_agent.Auth.Logins.{login-current_user}

-- Passwords and tokens stand for themselves.
abbrev open_book : AuthRuntime
open_book = record {
  strip = λ s. s;
  casefold = λ s. s;
  is_space = λ c. code c == 32;
  sha256_hex = λ s. s;
  hash = λ salt s. s;
  verify = λ hash password. text_eq hash password;
}

abbrev mei : User
mei = record {
  id = 7;
  email = "mei@example.org";
  password_hash = "kyoto";
  is_active = true;
  created_at = 0;
  updated_at = 0;
}

abbrev phone : AuthSession
phone = record {
  id = 1;
  user_id = 7;
  token_hash = "abc";
  expires_at = 900;
  revoked_at = none;
  created_at = 0;
  last_seen_at = 0;
}

abbrev accounts : AuthDb
accounts = record { users = mei ∷ []; sessions = phone ∷ [] }

abbrev drawn : Draw
drawn = record { now = 20; token = "xyz"; salt = 3; user_id = 8; session_id = 2 }

-- The user signs out, and in again.
revoke-ends_example :
    (current_user open_book 600 (some "abc") 30 (
      perform_all open_book 600 ""
        (AuthAction.sign_in "mei@example.org" "kyoto" drawn ∷ [])
        (revoke open_book 600 (some "abc") 10 accounts))).0
    ≡ refused authentication_required
revoke-ends_example =
    revoke-ends open_book 600 "" "abc" 10 30
      (AuthAction.sign_in "mei@example.org" "kyoto" drawn ∷ []) accounts (tt, tt) refl

signed_in :
    (login open_book 600 "" "mei@example.org" "kyoto" drawn accounts).0 ≡ granted (mei, "xyz")
unfolding login normalize_email check_credentials add_session
signed_in = refl

login-current_user_example :
    (mei.is_active ≡ true)
    × (text_eq "kyoto" "kyoto" ≡ true)
    × ((current_user open_book 600
          (some "xyz")
          30
          (login open_book 600 "" "mei@example.org" "kyoto" drawn accounts).1).0
        ≡ granted mei)
login-current_user_example =
    login-current_user open_book 600 "" "mei@example.org" "kyoto" drawn accounts mei "xyz" 30
      (tt, tt) signed_in refl (omega arith)
