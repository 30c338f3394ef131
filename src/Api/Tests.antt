-- ===== src/Api/Tests.antt =====
-- The API's theorems at a concrete server.
use uptime_monitor_api.Base.{◌≡◌, refl, inr, ℕ, ◌≤◌, none, some, [], arith}
use uptime_monitor_api.Db.{◌>>=◌, pure, ok}
use uptime_monitor_api.Auth.Limiter.{allowed, record_failure}
use uptime_monitor_api.Api.{decoded, error_reply, ok_reply, kept, in_limiter, in_registry}
use uptime_monitor_api.Base.Text.{of_code}
use uptime_monitor_api.Registry.Users.{normalise_username, admin_user_by_name}
use uptime_monitor_api.Registry.Sessions.{create_session}
use uptime_monitor_api.Api.Gates.{admin_ok, require_admin}
use uptime_monitor_api.Api.Gates.Laws.{Authorised, by_key, by_session, require_admin-closed}
use uptime_monitor_api.Api.Login.{
  LoginRequest, login_keys, handle_login, hash_password, rune_count, byte_count, invalid_login,
}
use uptime_monitor_api.Api.Login.Laws.{
  Earned, hash_password-bounds, handle_login-refused, handle_login-Earned,
}
use uptime_monitor_api.Samples.{ascii, toy_crypto, server, settings, anonymous, registry, alice}

abbrev clock : ℕ
clock = 400000000000

anonymous-refused : ¬ Authorised toy_crypto clock settings anonymous registry
anonymous-refused (by_key h k) = ground arith
anonymous-refused (by_session value sess p q l) = ground arith

require_admin-closed_example :
    let looked = admin_ok toy_crypto clock settings anonymous server [] in
    require_admin toy_crypto clock settings anonymous (pure (ok_reply kept)) server []
    ≡ (ok (error_reply 401 "admin credentials required"), looked.1, looked.2)
require_admin-closed_example =
    require_admin-closed toy_crypto clock settings anonymous (pure (ok_reply kept)) server []
      anonymous-refused

hash_password-bounds_example : (12 ≤ rune_count "correct horse") × (byte_count "correct horse" ≤ 72)
unfolding hash_password rune_count byte_count
hash_password-bounds_example =
    hash_password-bounds toy_crypto ascii clock "correct horse" "$correct horse" refl

abbrev good_login : LoginRequest
good_login = record { username = " Alice"; password = "correct horse" }

abbrev bad_login : LoginRequest
bad_login = record { username = " Alice"; password = "wrong horse" }

handle_login-refused_example :
    handle_login toy_crypto ascii clock "::1" none (decoded bad_login) server [] ≡ (
      ok invalid_login,
      record server {
        login_limiter =
            record_failure clock
              (login_keys bad_login "::1")
              (allowed clock (login_keys bad_login "::1") server.login_limiter).1;
      },
      [],
    )
unfolding allowed normalise_username of_code
handle_login-refused_example =
    handle_login-refused toy_crypto ascii clock "::1" none bad_login server refl refl refl
      (inr (alice, refl, refl))

handle_login-Earned_example : Earned toy_crypto ascii clock "::1" good_login server
unfolding handle_login allowed ◌>>=◌ in_limiter in_registry admin_user_by_name of_code
    create_session
handle_login-Earned_example =
    handle_login-Earned toy_crypto ascii clock "::1" (some "t") good_login server [] _ _ [] refl
      refl
