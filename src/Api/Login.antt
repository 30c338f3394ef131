-- ===== src/Api/Login.antt =====
-- internal/api/auth.go, with the password rules of internal/auth/auth.go.
pub mod Laws
use uptime_monitor_api.Base.{
  ℕ, suc, ◌+◌, ◌*◌, ◌/◌, Bool, true, false, not, ◌&&◌, ◌||◌, Option, none, some, List, [], ◌∷◌,
  String, ltb, if◌then◌else◌,
}
use uptime_monitor_api.Base.Text.{str_eq, is_empty, ◌⧺◌, Unicode, code}
use uptime_monitor_api.Db.{
  Exec, Result, ok, err, Error, user_not_found, error_text, pure, ◌>>=◌, ◌>>◌, attempt,
  attempt_option, attempt_result, Sqlite,
}
use uptime_monitor_api.Auth.Limiter.{allowed, retry_after, record_failure, reset}
use uptime_monitor_api.Registry.Tables.{AdminUser}
use uptime_monitor_api.Registry.Sessions.{create_session, delete_session}
use uptime_monitor_api.Registry.Users.{admin_user_by_name, set_admin_password}
use uptime_monitor_api.Api.{
  json_reply, who, Body, unreadable, invalid, decoded, Server, Crypto, Request, Reply, CookieChange,
  cleared, issued, error_reply, ok_reply, in_registry, in_limiter, session_ttl,
}
use uptime_monitor_api.Api.Gates.{session_user, unix}

abbrev pub min_password_length : ℕ
min_password_length = 12

-- utf8.RuneCountInString
unfoldable pub rune_count : String → ℕ
rune_count String.[] = 0
rune_count (String.◌∷◌ c s) = suc (rune_count s)

abbrev rune_bytes : ℕ → ℕ
rune_bytes n = if ltb n 128 then 1 else if ltb n 2048 then 2 else if ltb n 65536 then 3 else 4

-- `len` of a Go string: its bytes in UTF-8.
unfoldable pub byte_count : String → ℕ
byte_count String.[] = 0
byte_count (String.◌∷◌ c s) = rune_bytes (code c) + byte_count s

abbrev pub too_short : String
too_short = "password must be at least 12 characters"

abbrev pub too_long : String
too_long = "password must be at most 72 bytes"

pub record LoginRequest : Type 0 where
  pub username : String
  pub password : String

pub record PasswordRequest : Type 0 where
  pub current_password : String
  pub new_password : String

abbrev pub invalid_login : Reply
invalid_login = error_reply 401 "invalid username or password"

abbrev pub login_keys : LoginRequest → String → List String
login_keys q ip = ("user:" ⧺ q.username) ∷ ("ip:" ⧺ ip) ∷ []

module _ (crypto : Crypto) (u : Unicode) (clock : ℕ) where
  open crypto use {hash_token, check_password, bcrypt}

  abbrev pub bcrypted : Option String → Result String
  bcrypted none = err (Error.plain "bcrypt")
  bcrypted (some h) = ok h

  -- `HashPassword`
  unfoldable pub hash_password : String → Result String
  unfolding rune_count byte_count
  hash_password plain =
      if ltb (rune_count plain) min_password_length
      then err (Error.plain too_short)
      else if ltb 72 (byte_count plain)
      then err (Error.plain too_long)
      else bcrypted (bcrypt plain)

  abbrev pub throttled : List String → Exec Server Reply
  throttled keys = in_limiter (retry_after clock keys) >>= λ wait.
      pure (record (error_reply 429 "too many login attempts; try again later") {
        retry_after = some (wait / 1000000000 + 1);
      })

  abbrev pub refuse : List String → Exec Server Reply
  refuse keys = in_limiter (λ l. (tt, record_failure clock keys l)) >> pure invalid_login

  -- `token` is what `NewSessionToken` draws, `none` when there is no entropy.
  abbrev pub session_started : List String → String → Option (Unit {0}) → Exec Server Reply
  session_started keys token none = pure (error_reply 500 "could not start session")
  session_started keys token (some _) =
      in_limiter (λ l. (tt, reset keys l))
      >> pure (ok_reply (issued token (unix crypto clock + session_ttl)))

  abbrev pub start_session : List String → AdminUser → Option String → Exec Server Reply
  start_session keys user none = pure (error_reply 500 "could not start session")
  start_session keys user (some token) =
      attempt_option (
        in_registry (
          create_session (hash_token token) user.id (unix crypto clock + session_ttl)
            (unix crypto clock)))
      >>= session_started keys token

  -- For an unknown name the password is still compared, with `dummy_hash`, and refused whatever the
  -- comparison says.
  abbrev pub check_user :
      List String → LoginRequest → Option String → Result AdminUser → Exec Server Reply
  check_user keys q token (ok user) =
      if check_password user.password_hash q.password
      then start_session keys user token
      else refuse keys
  check_user keys q token (err user_not_found) = refuse keys
  check_user keys q token (err _) = pure (error_reply 500 "login unavailable")

  abbrev pub login : String → Option String → LoginRequest → Exec Server Reply
  login ip token q =
      if is_empty q.username || is_empty q.password
      then pure (error_reply 400 "username and password are required")
      else (in_limiter (allowed clock (login_keys q ip)) >>= λ b.
          if b
          then attempt_result (in_registry (admin_user_by_name u q.username))
            >>= check_user (login_keys q ip) q token
          else throttled (login_keys q ip))

  -- `handleLogin`
  unfoldable pub handle_login : String → Option String → Body LoginRequest → Exec Server Reply
  handle_login ip token unreadable = pure (error_reply 400 "request body too large or unreadable")
  handle_login ip token (invalid e) = pure (error_reply 400 ("invalid JSON: " ⧺ e))
  handle_login ip token (decoded q) = login ip token q

  abbrev pub logged_out : Reply
  logged_out = record (error_reply 204 "") { cookie = cleared }

  abbrev pub drop_cookie : Option String → Exec Server (Unit {0})
  drop_cookie none = pure tt
  drop_cookie (some value) =
      if is_empty value then pure tt else attempt (in_registry (delete_session (hash_token value)))

  -- `handleLogout`
  unfoldable pub handle_logout : Request → Exec Server Reply
  handle_logout r = drop_cookie r.session_cookie >> pure logged_out

  abbrev pub password_set : Option (Unit {0}) → Reply
  password_set none = error_reply 500 "could not update password"
  password_set (some _) = ok_reply cleared

  abbrev pub set_password : AdminUser → Result String → Exec Server Reply
  set_password user (ok hash) =
      attempt_option (in_registry (set_admin_password user.id hash (unix crypto clock))) >>= λ o.
      pure (password_set o)
  set_password user (err e) = pure (error_reply 400 (error_text e))

  abbrev pub change_password : AdminUser → Body PasswordRequest → Exec Server Reply
  change_password user unreadable = pure (error_reply 400 "request body too large or unreadable")
  change_password user (invalid e) = pure (error_reply 400 ("invalid JSON: " ⧺ e))
  change_password user (decoded q) =
      if check_password user.password_hash q.current_password
      then set_password user (hash_password q.new_password)
      else pure (error_reply 401 "current password is incorrect")

  abbrev pub for_user : Body PasswordRequest → Option AdminUser → Exec Server Reply
  for_user body none =
      pure (error_reply 403 "password changes require a logged-in session, not an API key")
  for_user body (some user) = change_password user body

  -- `handleChangePassword`
  unfoldable pub handle_change_password : Request → Body PasswordRequest → Exec Server Reply
  unfolding hash_password
  handle_change_password r body = session_user crypto clock r >>= for_user body

  abbrev pub username_of : Option AdminUser → Option String
  username_of none = none
  username_of (some user) = some user.username

  -- `handleMe`; without a name the caller came with the API key.
  unfoldable pub handle_me : Request → Exec Server Reply
  handle_me r = session_user crypto clock r >>= λ u. pure (json_reply 200 (who (username_of u)))
