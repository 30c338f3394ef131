-- ===== src/Samples.antt =====
-- Concrete libraries, configurations and rows, which the tests of the components share.
use uptime_monitor_api.Base.{
  true, false, none, some, [], ◌∷◌, ◌==◌, ltb, if◌then◌else◌, ◌+◌, ◌&&◌, ◌||◌,
}
use uptime_monitor_api.Base.Int.{pos}
use uptime_monitor_api.Base.Text.{code, of_code, str_eq, ◌⧺◌, Unicode}
use uptime_monitor_api.Config.{SiteConfig, ChecksConfig, Library}
use uptime_monitor_api.Registry.Tables.{
  RegistryDb, AdminUser, Session, AlertChannel, AlertRule, empty_registry,
}
use uptime_monitor_api.Registry.Sites.{Codec}
use uptime_monitor_api.Alerts.Message.{Format, Event}
use uptime_monitor_api.Auth.Limiter.{Limiter}
use uptime_monitor_api.Stores.{new_stores}
use uptime_monitor_api.Scheduler.{new_manager}
use uptime_monitor_api.Api.{Server, Crypto, Settings, Request}

-- The ASCII part of the Unicode tables.
abbrev pub ascii : Unicode
ascii = record {
  lower = λ c. if ltb 64 (code c) && ltb (code c) 91 then of_code (code c + 32) else c;
  space = λ c. code c == 32 || code c == 9 || code c == 10 || code c == 13;
}

-- A parser that knows one host.
abbrev pub one_host : Library
one_host = record {
  unicode = ascii;
  parse_url = λ url.
      if str_eq url "https://example.com/"
      then some (record { scheme = "https"; host = "example.com"; hostname = "example.com" })
      else none;
}

abbrev pub all_checks : ChecksConfig
all_checks = record {
  http = record { enabled = true; expect_status = pos 200 ∷ [] };
  latency = record { enabled = true; max_ms = pos 500 };
  content = record { enabled = true; must_contain = "hello" ∷ []; must_not_contain = "fatal" ∷ [] };
  ssl = record { enabled = true; warn_days = pos 14 };
  dns = record { enabled = true };
}

abbrev pub example_site : SiteConfig
example_site = record {
  id = "example";
  name = "Example";
  url = "https://example.com/";
  interval_seconds = pos 60;
  slow_interval_seconds = pos 3600;
  enabled = true;
  checks = all_checks;
  created_at = 100;
  updated_at = 100;
  api_key_hash = "";
}

-- A codec that knows one configuration.
abbrev pub one_config : Codec
one_config = record {
  marshal = λ c. "{all}";
  unmarshal = λ text. if str_eq text "{all}" then some all_checks else none;
}

abbrev pub plain_times : Format
plain_times = record { unicode = ascii; utc = λ t. "now" }

-- A hash that is easy to see through.
abbrev pub toy_crypto : Crypto
toy_crypto = record {
  hash_token = λ t. "#" ⧺ t;
  hash_api_key = λ k. "#" ⧺ k;
  check_password = λ h p. str_eq h ("$" ⧺ p);
  dummy_hash = "";
  bcrypt = λ p. some ("$" ⧺ p);
}

abbrev pub alice : AdminUser
alice = record {
  id = 1;
  username = "alice";
  password_hash = "$correct horse";
  created_at = 1;
  updated_at = 1;
}

abbrev pub alice_session : Session
alice_session = record {
  id = "#tok";
  user_id = 1;
  created_at = 10;
  expires_at = 5000;
  last_seen_at = 10;
}

abbrev pub bob_session : Session
bob_session = record {
  id = "#bob";
  user_id = 2;
  created_at = 10;
  expires_at = 5000;
  last_seen_at = 10;
}

abbrev pub ops_channel : AlertChannel
ops_channel = record {
  id = 3;
  name = "ops";
  type = "email";
  target = "ops@example.com";
  enabled = true;
  created_at = 1;
  updated_at = 1;
}

abbrev pub down_rule : AlertRule
down_rule = record {
  id = 1;
  site_id = none;
  channel_id = 3;
  kind = "site_down";
  enabled = true;
  confirm_after = pos 2;
  created_at = 1;
  updated_at = 1;
}

abbrev pub registry : RegistryDb
registry = record empty_registry {
  admin_users = alice ∷ [];
  sessions = alice_session ∷ bob_session ∷ [];
  alert_channels = ops_channel ∷ [];
  alert_rules = down_rule ∷ [];
}

abbrev pub quiet_limiter : Limiter
quiet_limiter = record { max_attempts = 5; window = 900000000000; attempts = [] }

abbrev pub server : Server
server = record {
  registry = registry;
  login_limiter = quiet_limiter;
  stores = new_stores "data" [];
  scheduler = new_manager;
  deprecation_seen = [];
}

abbrev pub settings : Settings
settings = record { api_key = "secret" }

abbrev pub anonymous : Request
anonymous = record { presented_key = "guess"; session_cookie = none }

-- The second failure of an outage.
abbrev pub second_failure : Event
second_failure = record {
  site = example_site;
  transition = record {
    incident_opened = false;
    incident_resolved = false;
    incident_id = 7;
    consecutive_failures = 2;
    up = false;
    error = "unexpected status 500";
    ssl_expires_at = pos 0;
    ssl_checked = false;
  };
  at = 1000;
}
