-- ===== src/Api/Login/Laws.antt =====
-- Who gets a session, and what a refused login looks like.
use uptime_monitor_api.Base.{
  arith, ◌≡◌, refl, ◌⊎◌, inl, inr, ℕ, ◌≤◌, true, false, Option, none, some, [], String,
}
use uptime_monitor_api.Base.Text.{Unicode, is_empty}
use uptime_monitor_api.Db.{ok, Faults, ◌>>=◌}
use uptime_monitor_api.Auth.Limiter.{allowed, record_failure}
use uptime_monitor_api.Registry.Tables.{AdminUser}
use uptime_monitor_api.Registry.Users.{admin_user_by_name, normalise_username, user_named}
use uptime_monitor_api.Registry.Sessions.{create_session}
use uptime_monitor_api.Api.{decoded, Server, Crypto, Reply, in_registry, in_limiter}
use uptime_monitor_api.Api.Login.{
  LoginRequest, login_keys, handle_login, hash_password, rune_count, byte_count, invalid_login,
}

-- A password that is hashed has at least 12 characters and at most 72 bytes: past these bcrypt would
-- read only a part of it.
pub hash_password-bounds :
    (crypto : Crypto) (u : Unicode) (clock : ℕ) (plain h : String)
    → hash_password crypto u clock plain ≡ ok h
    → (12 ≤ rune_count plain) × (byte_count plain ≤ 72)
unfolding hash_password
hash_password-bounds crypto u clock plain h e = ground arith

module _ (crypto : Crypto) (u : Unicode) (clock : ℕ) where
  -- Where the limiter allows the caller and the engine does not fail, an unknown name and a wrong
  -- password get the same reply and leave the same server: nothing but the failure is recorded.
  pub handle_login-refused :
      (ip : String) (token : Option String) (q : LoginRequest) (s : Server)
      → is_empty q.username ≡ false
      → is_empty q.password ≡ false
      → (allowed clock (login_keys q ip) s.login_limiter).0 ≡ true
      → (user_named (normalise_username u q.username) s.registry ≡ none)
        ⊎ ((user : AdminUser) × (user_named (normalise_username u q.username) s.registry
              ≡ some user)
            × (crypto.check_password user.password_hash q.password ≡ false))
      → handle_login crypto u clock ip token (decoded q) s [] ≡ (
        ok invalid_login,
        record s {
          login_limiter =
              record_failure clock
                (login_keys q ip)
                (allowed clock (login_keys q ip) s.login_limiter).1;
        },
        [],
      )
  unfolding handle_login ◌>>=◌ in_limiter in_registry admin_user_by_name
  handle_login-refused ip token q s n p a (inl unknown) = rw (n, p, a, unknown) refl
  handle_login-refused ip token q s n p a (inr (user, known, wrong)) =
      rw (n, p, a, known, wrong) refl

  -- What a login that is answered with 200 has been through.
  pub record Earned (ip : String) (q : LoginRequest) (s : Server) : Type 0 where
    pub was_allowed : (allowed clock (login_keys q ip) s.login_limiter).0 ≡ true
    pub account : AdminUser
    pub known : user_named (normalise_username u q.username) s.registry ≡ some account
    pub password : crypto.check_password account.password_hash q.password ≡ true

  -- Whatever the engine does, a login that is answered with 200 was allowed by the limiter, and its
  -- password is that of the account that its name, normalised, belongs to.
  pub handle_login-Earned :
      (ip : String) (token : Option String) (q : LoginRequest) (s : Server) (fs : Faults)
      → (r : Reply) (s' : Server) (fs' : Faults)
      → handle_login crypto u clock ip token (decoded q) s fs ≡ (ok r, s', fs')
      → r.status ≡ 200
      → Earned ip q s
  unfolding handle_login ◌>>=◌ in_limiter in_registry admin_user_by_name create_session
  handle_login-Earned ip token q s fs r s' fs' e h = ground arith
