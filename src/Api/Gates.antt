-- ===== src/Api/Gates.antt =====
-- internal/api/api.go and auth.go: who may pass.
pub mod Laws
use uptime_monitor_api.Base.{
  ℕ, ◌+◌, ◌/◌, Bool, true, false, not, ◌&&◌, Option, none, some, String, ltb, if◌then◌else◌,
}
use uptime_monitor_api.Base.Text.{str_eq, is_empty}
use uptime_monitor_api.Config.{SiteConfig}
use uptime_monitor_api.Db.{
  Exec, Result, ok, err, Error, not_found, error_text, pure, ◌>>=◌, ◌>>◌, attempt, attempt_option,
  attempt_result,
}
use uptime_monitor_api.Registry.Tables.{Session, AdminUser}
use uptime_monitor_api.Registry.Sessions.{lookup_session, touch_session}
use uptime_monitor_api.Registry.Users.{admin_user_by_id}
use uptime_monitor_api.Registry.Sites.{Codec, get_site}
use uptime_monitor_api.Api.{
  registry_error, Server, Settings, Crypto, Request, Reply, error_reply, in_registry, seconds,
  session_ttl, session_renew_after,
}

-- `subtle.ConstantTimeCompare` is 1 when the texts are equal.
abbrev pub key_matches : String → String → Bool
key_matches presented want = str_eq presented want

module _ (crypto : Crypto) (clock : ℕ) where
  open crypto use {hash_token, hash_api_key}

  abbrev pub unix : ℕ
  unix = clock / 1000000000

  -- At most one write an hour moves the expiry on.
  abbrev pub slide : Session → Exec Server (Unit {0})
  slide sess =
      if ltb (seconds (sess.last_seen_at + session_renew_after)) clock
      then attempt (in_registry (touch_session sess.id (unix + session_ttl) unix))
      else pure tt

  abbrev pub with_user : Session → Option AdminUser → Exec Server (Option AdminUser)
  with_user sess none = pure none
  with_user sess (some user) = slide sess >> pure (some user)

  abbrev pub with_session : Option Session → Exec Server (Option AdminUser)
  with_session none = pure none
  with_session (some sess) =
      attempt_option (in_registry (admin_user_by_id sess.user_id)) >>= with_user sess

  abbrev pub with_cookie : Option String → Exec Server (Option AdminUser)
  with_cookie none = pure none
  with_cookie (some value) =
      if is_empty value
      then pure none
      else attempt_option (in_registry (lookup_session (hash_token value) unix)) >>= with_session

  -- `sessionUser`
  unfoldable pub session_user : Request → Exec Server (Option AdminUser)
  session_user r = with_cookie r.session_cookie

  abbrev pub is_user : Option AdminUser → Bool
  is_user none = false
  is_user (some u) = true

  -- `sessionOK`
  unfoldable pub session_ok : Request → Exec Server Bool
  session_ok r = session_user r >>= λ u. pure (is_user u)

  module _ (settings : Settings) where
    -- `adminOK`
    unfoldable pub admin_ok : Request → Exec Server Bool
    admin_ok r =
        if not (is_empty settings.api_key) && key_matches r.presented_key settings.api_key
        then pure true
        else session_ok r

    -- `requireAdmin`
    unfoldable pub require_admin : Request → Exec Server Reply → Exec Server Reply
    require_admin r next =
        admin_ok r >>= λ b. if b then next else pure (error_reply 401 "admin credentials required")

    abbrev pub site_key_ok : Request → SiteConfig → Bool
    site_key_ok r site =
        not (is_empty site.api_key_hash)
        && key_matches (hash_api_key r.presented_key) site.api_key_hash

    abbrev pub site_gate : Request → Exec Server Reply → Result SiteConfig → Exec Server Reply
    site_gate r next (err e) = pure (registry_error e)
    site_gate r next (ok site) = admin_ok r >>= λ b.
        if b
        then next
        else if site_key_ok r site
        then next
        else pure (error_reply 401 "valid API key required for this site")

    -- `requireSiteRead`
    unfoldable pub require_site_read :
        Codec → String → Request → Exec Server Reply → Exec Server Reply
    require_site_read json id r next =
        attempt_result (in_registry (get_site json id)) >>= site_gate r next
