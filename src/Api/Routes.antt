-- ===== src/Api/Routes.antt =====
-- internal/api/api.go: the route table. A route is what net/http's ServeMux makes of a method and a
-- path, with what the handler reads of the request.
mod Tests
pub mod Untouched
pub mod Closed
use uptime_monitor_api.Base.{ℕ, ◌/◌, Bool, true, false, Option, none, some, List, String}
use uptime_monitor_api.Base.Int.{ℤ}
use uptime_monitor_api.Base.Text.{Unicode}
use uptime_monitor_api.Config.{Library}
use uptime_monitor_api.Db.{Exec, Sqlite, pure}
use uptime_monitor_api.Registry.Sites.{Codec}
use uptime_monitor_api.Api.{Server, Settings, Crypto, Request, Reply, Body, error_reply}
use uptime_monitor_api.Api.Gates.{require_admin, require_site_read, unix}
use uptime_monitor_api.Api.Login.{
  LoginRequest, PasswordRequest, handle_login, handle_logout, handle_me, handle_change_password,
}
use uptime_monitor_api.Api.Caller.{warn_deprecated, with_cors}
use uptime_monitor_api.Api.Sites.{
  SiteBody, handle_health, handle_list_sites, handle_create_site, handle_get_site,
  handle_update_site, handle_delete_site,
}
use uptime_monitor_api.Api.Data.{
  Query, handle_status, handle_uptime, handle_metrics, handle_errors, handle_incidents,
  handle_results, handle_series, handle_overview,
}
use uptime_monitor_api.Api.Channels.{
  ChannelInput, Sender, handle_list_channels, handle_create_channel, handle_update_channel,
  handle_delete_channel, handle_test_channel,
}
use uptime_monitor_api.Api.Rules.{
  RuleInput, handle_list_rules, handle_create_rule, handle_update_rule, handle_delete_rule,
  handle_list_deliveries,
}

pub data AdminRoute : Type 0 where
  get_me : AdminRoute
  post_password : Body PasswordRequest → AdminRoute
  get_sites : AdminRoute
  post_sites : Body SiteBody → AdminRoute
  get_site : String → AdminRoute
  put_site : String → Body SiteBody → AdminRoute
  delete_site : String → (purge : Bool) → AdminRoute
  get_channels : AdminRoute
  post_channels : Body ChannelInput → AdminRoute
  put_channel : Option ℤ → Body ChannelInput → AdminRoute
  delete_channel : Option ℤ → AdminRoute
  test_channel : Option ℤ → AdminRoute
  get_rules : AdminRoute
  post_rules : Body RuleInput → AdminRoute
  put_rule : Option ℤ → Body RuleInput → AdminRoute
  delete_rule : Option ℤ → AdminRoute
  get_deliveries : String → Option ℤ → AdminRoute
  get_overview : Query → AdminRoute

pub data DataRoute : Type 0 where
  get_series get_status get_uptime get_metrics get_errors get_incidents get_results : DataRoute

pub data Route : Type 0 where
  get_health : Route
  post_login : Body LoginRequest → Route
  post_logout : Route
  admin : AdminRoute → Route
  site_data : String → DataRoute → Query → Route

-- What the handlers take from outside of the server: libraries, the mail transport, the caller's
-- address, and the random texts that would be drawn.
pub record Outside : Type 0 where
  pub lib : Library
  pub json : Codec
  pub crypto : Crypto
  pub sql : Sqlite
  pub is_address : String → Bool
  pub sender : Sender
  pub client_ip : String
  pub token : Option String
  pub random_key : Option String

module _ (o : Outside) (settings : Settings) (clock : ℕ) where
  abbrev now : ℕ
  now = clock / 1000000000

  abbrev lower : Unicode
  lower = o.lib.unicode

  abbrev pub admin_handler : Request → AdminRoute → Exec Server Reply
  admin_handler r get_me = handle_me o.crypto lower clock r
  admin_handler r (post_password b) = handle_change_password o.crypto lower clock r b
  admin_handler r get_sites = handle_list_sites o.lib o.json o.crypto now o.random_key
  admin_handler r (post_sites b) = handle_create_site o.lib o.json o.crypto now o.random_key b
  admin_handler r (get_site id) = handle_get_site o.lib o.json o.crypto now o.random_key id
  admin_handler r (put_site id b) = handle_update_site o.lib o.json o.crypto now o.random_key id b
  admin_handler r (delete_site id purge) = handle_delete_site id purge
  admin_handler r get_channels = handle_list_channels
  admin_handler r (post_channels b) = handle_create_channel lower o.is_address o.sql now b
  admin_handler r (put_channel id b) = handle_update_channel lower o.is_address o.sql now id b
  admin_handler r (delete_channel id) = handle_delete_channel id
  admin_handler r (test_channel id) = handle_test_channel o.sender id
  admin_handler r get_rules = handle_list_rules
  admin_handler r (post_rules b) = handle_create_rule o.sql now b
  admin_handler r (put_rule id b) = handle_update_rule o.sql now id b
  admin_handler r (delete_rule id) = handle_delete_rule id
  admin_handler r (get_deliveries site limit) = handle_list_deliveries site limit
  admin_handler r (get_overview q) = handle_overview o.json now q

  abbrev pub data_handler : String → Query → DataRoute → Exec Server Reply
  data_handler id q get_series = handle_series o.json now id q
  data_handler id q get_status = handle_status o.json now id q
  data_handler id q get_uptime = handle_uptime o.json now id q
  data_handler id q get_metrics = handle_metrics o.json now id q
  data_handler id q get_errors = handle_errors o.json now id q
  data_handler id q get_incidents = handle_incidents o.json now id q
  data_handler id q get_results = handle_results o.json now id q

  -- `apiMux`
  unfoldable pub serve : Request → Route → Exec Server Reply
  unfolding require_admin require_site_read handle_login handle_logout handle_health
  serve r get_health = handle_health now
  serve r (post_login b) = handle_login o.crypto lower clock o.client_ip o.token b
  serve r post_logout = handle_logout o.crypto lower clock r
  serve r (admin route) = require_admin o.crypto clock settings r (admin_handler r route)
  serve r (site_data id route q) =
      require_site_read o.crypto clock settings o.json id r (data_handler id q route)

-- How a path came in: below /api/ or bare.
pub data Mount : Type 0 where
  prefixed bare : Mount

-- `Handler`: both mounts share the routes; the bare one is there only with `legacyRoutes`.
unfoldable pub handler :
    Outside
    → Settings
    → ℕ
    → (legacy_routes : Bool) → (cors_origins : List String) → (method origin path : String) → Mount
    → Request
    → Route
    → Exec Server (Option String × Reply)
unfolding serve with_cors warn_deprecated
handler o settings clock legacy origins method origin path prefixed r route =
    with_cors origins method origin (serve o settings clock r route)
handler o settings clock true origins method origin path bare r route =
    with_cors origins method origin (warn_deprecated clock path (serve o settings clock r route))
handler o settings clock false origins method origin path bare r route =
    with_cors origins method origin (pure (error_reply 404 "404 page not found"))
