-- ===== src/Api.antt =====
-- The HTTP API (internal/api). A handler is an action on the server that answers a reply.
mod Tests
pub mod Params
pub mod Gates
pub mod Login
pub mod Hoare
pub mod Caller
pub mod Sites
pub mod Data
pub mod Channels
pub mod Rules
pub mod Routes
use uptime_monitor_api.Base.{ℕ, ◌*◌, Bool, true, false, Option, none, some, List, String}
use uptime_monitor_api.Base.Text.{◌⧺◌}
use uptime_monitor_api.Base.Dict.{Dict}
use uptime_monitor_api.Config.{SiteConfig}
use uptime_monitor_api.Db.{Exec, ok, Error, not_found, alert_not_found, error_text}
use uptime_monitor_api.Auth.Limiter.{Limiter}
use uptime_monitor_api.Registry.Tables.{RegistryDb, AlertChannel, AlertRule, AlertDelivery}
use uptime_monitor_api.Site.Tables.{ErrorRow, ResultRow}
use uptime_monitor_api.Site.Query.{Status, Uptime, Metrics, Incident}
use uptime_monitor_api.Site.Series.{Series}
use uptime_monitor_api.Stores.{Stores}
use uptime_monitor_api.Overview.{SiteOverview, Storage}
use uptime_monitor_api.Scheduler.{Manager}
use uptime_monitor_api.Alerts.Dispatcher.{Queue}

-- What changes from request to request.
pub record Server : Type 0 where
  pub registry : RegistryDb
  pub login_limiter : Limiter
  pub stores : Stores
  pub scheduler : Manager Queue
  pub deprecation_seen : Dict ℕ

-- The API key that cmd/monitor configures; empty when there is none.
pub record Settings : Type 0 where
  pub api_key : String

-- What the handlers take from crypto/sha256 and golang.org/x/crypto/bcrypt.
pub record Crypto : Type 0 where
  pub hash_token : String → String
  pub hash_api_key : String → String
  pub check_password : String → String → Bool
  pub dummy_hash : String
  pub bcrypt : String → Option String

-- The parts of a request that the gates read: the X-API-Key header, empty when absent, and the
-- session cookie.
pub record Request : Type 0 where
  pub presented_key : String
  pub session_cookie : Option String

pub data CookieChange : Type 0 where
  kept cleared : CookieChange
  issued : String → ℕ → CookieChange

-- What a success carries, for the routes that answer data. `plain_key` is the one-time API key that
-- `writeSite` splices in.
pub data Payload : Type 0 where
  nothing : Payload
  health : ℕ → Payload
  who : Option String → Payload
  one_site : SiteConfig → (plain_key : String) → Payload
  all_sites : List SiteConfig → Payload
  site_status : Status → Payload
  site_uptime : Uptime → Payload
  site_metrics : Metrics → Payload
  site_errors : List ErrorRow → Payload
  site_incidents : List Incident → Payload
  site_results : List ResultRow → Payload
  site_series : Series → Payload
  site_overview : List SiteOverview → Payload
  one_channel : AlertChannel → Payload
  all_channels : List AlertChannel → Payload
  one_rule : AlertRule → Payload
  all_rules : List AlertRule → Payload
  deliveries : List AlertDelivery → Payload
  test_sent : (target : String) → Payload

pub record Reply : Type 0 where
  pub status : ℕ
  pub message : String
  pub payload : Payload
  pub cookie : CookieChange
  pub retry_after : Option ℕ

abbrev pub error_reply : ℕ → String → Reply
error_reply status message = record {
  status = status;
  message = message;
  payload = nothing;
  cookie = kept;
  retry_after = none;
}

abbrev pub ok_reply : CookieChange → Reply
ok_reply c = record {
  status = 200;
  message = "";
  payload = nothing;
  cookie = c;
  retry_after = none;
}

-- `handleRegistryErr`
abbrev pub registry_error : Error → Reply
registry_error not_found = error_reply 404 "site not found"
registry_error e = error_reply 500 (error_text e)

-- `handleAlertErr`
abbrev pub alert_error : Error → Reply
alert_error alert_not_found = error_reply 404 "not found"
alert_error e = error_reply 500 (error_text e)

-- Every other error of the storage.
abbrev pub failed : Error → Reply
failed e = error_reply 500 (error_text e)

-- `writeJSON`
abbrev pub json_reply : ℕ → Payload → Reply
json_reply status p = record {
  status = status;
  message = "";
  payload = p;
  cookie = kept;
  retry_after = none;
}

abbrev pub no_content : Reply
no_content = json_reply 204 nothing

abbrev pub too_large : Reply
too_large = error_reply 400 "request body too large or unreadable"

abbrev pub invalid_json : String → Reply
invalid_json e = error_reply 400 ("invalid JSON: " ⧺ e)

-- The form that a handler decodes: the body is unreadable, is not JSON, or holds the fields.
pub data Body (A : Type 0) : Type 0 where
  unreadable : Body A
  invalid : String → Body A
  decoded : A → Body A

module _ {A : Type 0} where
  unfoldable pub in_registry : Exec RegistryDb A → Exec Server A
  in_registry m s fs = let (r, db, fs') = m s.registry fs in (r, record s { registry = db }, fs')

  -- The limiter is in memory: its calls do not fail.
  unfoldable pub in_limiter : (Limiter → A × Limiter) → Exec Server A
  in_limiter f s fs = let (a, l) = f s.login_limiter in (ok a, record s { login_limiter = l }, fs)

  unfoldable pub in_stores : Exec Stores A → Exec Server A
  in_stores m s fs = let (r, st, fs') = m s.stores fs in (r, record s { stores = st }, fs')

  -- The registry and the stores together.
  unfoldable pub in_storage : Exec Storage A → Exec Server A
  in_storage m s fs =
      let (r, st, fs') = m (record { registry = s.registry; stores = s.stores }) fs in
      (r, record s { registry = st.registry; stores = st.stores }, fs')

-- A call of the scheduler, which does not fail.
unfoldable pub in_scheduler : (Manager Queue → Manager Queue) → Exec Server (Unit {0})
in_scheduler f s fs = (ok tt, record s { scheduler = f s.scheduler }, fs)

-- Seconds, in the nanoseconds of the clock.
abbrev pub seconds : ℕ → ℕ
seconds n = n * 1000000000

abbrev pub session_ttl : ℕ
session_ttl = 7 * 24 * 3600

abbrev pub session_renew_after : ℕ
session_renew_after = 3600
