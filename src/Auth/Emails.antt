-- ===== src/Auth/Emails.antt =====
-- app/auth.py: the form of an email address.
use Prim.Native.Char.{Char, code}
use diy_agent.Prelude.{
  ℕ, String, Option, none, some, Bool, true, false, not, ◌&&◌, ◌||◌, ltb, ◌==◌, text_length,
  if◌then◌else◌,
}

-- What the code calls of the runtime: `str.strip`, `str.casefold`, the white space of `\s`, the
-- SHA-256 of the UTF-8 bytes, and `argon2`, whose `hash` takes a salt of its own making. `verify`
-- answers no where it raises `VerificationError` or `InvalidHashError`.
pub record AuthRuntime : Type 0 where
  pub strip : String → String
  pub casefold : String → String
  pub is_space : Char → Bool
  pub sha256_hex : String → String
  pub hash : ℕ → String → String
  pub verify : String → String → Bool

-- `[^\s@]`
abbrev pub is_plain : AuthRuntime → Char → Bool
is_plain rt c = not (rt.is_space c) && not (code c == 64)

-- `[^\s@]*`
abbrev pub all_plain : AuthRuntime → String → Bool
all_plain rt String.[] = true
all_plain rt (String.◌∷◌ c s) = is_plain rt c && all_plain rt s

-- `[^\s@]*\.[^\s@]+`: a dot with a character after it
abbrev pub ends_domain : AuthRuntime → String → Bool
ends_domain rt String.[] = false
ends_domain rt (String.◌∷◌ c String.[]) = false
ends_domain rt (String.◌∷◌ c (String.◌∷◌ d s)) =
    let later = ends_domain rt (String.◌∷◌ d s) in
    is_plain rt c && (code c == 46 && all_plain rt (String.◌∷◌ d s) || later)

-- `[^\s@]+\.[^\s@]+`
abbrev pub is_domain : AuthRuntime → String → Bool
is_domain rt String.[] = false
is_domain rt (String.◌∷◌ c s) = is_plain rt c && ends_domain rt s

-- `_EMAIL_PATTERN`, after some characters before the `@` or none.
unfoldable pub matches_email : AuthRuntime → Bool → String → Bool
matches_email rt begun String.[] = false
matches_email rt begun (String.◌∷◌ c s) =
    let later = matches_email rt true s in
    if code c == 64 then begun && is_domain rt s else is_plain rt c && later

-- `normalize_email`; nothing where it raises `INVALID_EMAIL`.
unfoldable pub normalize_email : AuthRuntime → String → Option String
unfolding matches_email
normalize_email rt value =
    let email = rt.casefold (rt.strip value) in
    if ltb 320 (text_length email) || not (matches_email rt false email) then none else some email
