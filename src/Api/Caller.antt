-- ===== src/Api/Caller.antt =====
-- internal/api/api.go: who calls, the warnings about the old paths, and the CORS headers.
use uptime_monitor_api.Base.{
  ℕ, ◌-◌, ◌*◌, Bool, true, false, not, ◌&&◌, Option, none, some, List, String, ◌==◌, ltb,
  if◌then◌else◌, any,
}
use uptime_monitor_api.Base.Text.{code, str_eq, is_empty, Unicode, trim_space}
use uptime_monitor_api.Base.Dict.{Dict, get, put}
use uptime_monitor_api.Db.{Exec, pure, ◌>>=◌}
use uptime_monitor_api.Api.{Server, Reply, no_content}

-- `v[:i]`, up to the first comma
unfoldable pub before_comma : String → String
before_comma String.[] = String.[]
before_comma (String.◌∷◌ c s) = if code c == 44 then String.[] else String.◌∷◌ c (before_comma s)

-- What the address is read from: the peer of the connection, and the headers, empty when absent.
pub record Peer : Type 0 where
  pub remote_addr : String
  pub header : String → String

-- `callerIP`
unfoldable pub caller_ip : Unicode → String → Peer → String
unfolding before_comma trim_space
caller_ip u real_ip_header r =
    let v = trim_space u (before_comma (r.header real_ip_header)) in
    if not (is_empty real_ip_header) && not (is_empty v) then v else r.remote_addr

-- `clientIP`; the host of `net.SplitHostPort` is an argument.
unfoldable pub client_ip : (String → Option String) → Unicode → String → Peer → String
unfolding caller_ip
client_ip split_host_port u real_ip_header r =
    let addr = caller_ip u real_ip_header r in
    elim (split_host_port addr) [ none ↦ addr | some host ↦ host ]

-- In the nanoseconds of the clock.
abbrev pub deprecation_log_every : ℕ
deprecation_log_every = 3600 * 1000000000

abbrev pub due : ℕ → Option ℕ → Bool
due clock none = true
due clock (some last) = not (ltb (clock - last) deprecation_log_every)

-- `shouldLogDeprecation`; the clock does not go back.
unfoldable pub should_log_deprecation : ℕ → String → Dict ℕ → Bool × Dict ℕ
unfolding get put
should_log_deprecation clock path seen =
    if due clock (get path seen) then (true, put path clock seen) else (false, seen)

-- `warnDeprecated`, without the text of the line that it logs.
unfoldable pub warn_deprecated : ℕ → String → Exec Server Reply → Exec Server Reply
unfolding should_log_deprecation
warn_deprecated clock path next s fs =
    next (record s { deprecation_seen = (should_log_deprecation clock path s.deprecation_seen).1 })
      fs

-- `originAllowed`
unfoldable pub origin_allowed : String → List String → Bool
origin_allowed origin cors_origins = any (λ o. str_eq o origin) cors_origins

-- The Access-Control-Allow-Origin header; the other CORS headers come with it and are constant.
unfoldable pub cors_header : String → List String → Option String
unfolding origin_allowed
cors_header origin cors_origins =
    if not (is_empty origin) && origin_allowed origin cors_origins then some origin else none

-- `withCORS`
unfoldable pub with_cors :
    List String → (method origin : String) → Exec Server Reply → Exec Server (Option String × Reply)
unfolding cors_header
with_cors cors_origins method origin next =
    let header = cors_header origin cors_origins in
    if str_eq method "OPTIONS" then pure (header, no_content) else next >>= λ r. pure (header, r)
