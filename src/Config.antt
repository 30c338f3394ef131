-- ===== src/Config.antt =====
-- internal/config/config.go: the configuration of a site, its defaults and its validation.
pub mod Slug
pub mod Laws
pub mod Defaults
mod Tests
use uptime_monitor_api.Base.{
  ℕ, Bool, true, false, not, ◌&&◌, ◌||◌, Option, none, some, List, [], String, if◌then◌else◌,
}
use uptime_monitor_api.Base.Int.{ℤ, pos, ltb_ℤ, eqb_ℤ}
use uptime_monitor_api.Base.Text.{is_empty, str_eq, Unicode, trim_space}
use uptime_monitor_api.Config.Slug.{slugify, is_slug}

abbrev pub default_interval_seconds : ℤ
default_interval_seconds = pos 60

abbrev pub default_slow_interval_seconds : ℤ
default_slow_interval_seconds = pos 3600

abbrev pub min_interval_seconds : ℤ
min_interval_seconds = pos 5

abbrev pub max_interval_seconds : ℤ
max_interval_seconds = pos 86400

abbrev pub default_ssl_warn_days : ℤ
default_ssl_warn_days = pos 14

pub record HttpCheck : Type 0 where
  pub enabled : Bool
  pub expect_status : List ℤ

pub record LatencyCheck : Type 0 where
  pub enabled : Bool
  pub max_ms : ℤ

pub record ContentCheck : Type 0 where
  pub enabled : Bool
  pub must_contain : List String
  pub must_not_contain : List String

pub record SslCheck : Type 0 where
  pub enabled : Bool
  pub warn_days : ℤ

pub record DnsCheck : Type 0 where
  pub enabled : Bool

pub record ChecksConfig : Type 0 where
  pub http : HttpCheck
  pub latency : LatencyCheck
  pub content : ContentCheck
  pub ssl : SslCheck
  pub dns : DnsCheck

-- Go's `int` fields may be negative, as a client may send them so.
pub record SiteConfig : Type 0 where
  pub id : String
  pub name : String
  pub url : String
  pub interval_seconds : ℤ
  pub slow_interval_seconds : ℤ
  pub enabled : Bool
  pub checks : ChecksConfig
  pub created_at : ℕ
  pub updated_at : ℕ
  pub api_key_hash : String

-- What `net/url` answers for a text: the parts that the program reads.
pub record ParsedUrl : Type 0 where
  pub scheme : String
  pub host : String
  pub hostname : String

-- The library code that this module calls: `url.Parse`, by its error text or its parts, and the
-- Unicode tables behind `strings.ToLower` and `strings.TrimSpace`.
pub record Library : Type 0 where
  pub unicode : Unicode
  pub parse_url : String → Option ParsedUrl

abbrev is_zero : ℤ → Bool
is_zero n = eqb_ℤ n (pos 0)

module _ (lib : Library) where
  open lib use {unicode, parse_url}

  abbrev pub default_id : SiteConfig → String
  default_id s =
      let from_name = slugify unicode s.name in
      if not (is_empty s.id)
      then s.id
      else if is_empty from_name
      then slugify unicode s.url
      else from_name

  abbrev pub default_ssl : SslCheck → SslCheck
  default_ssl c =
      if c.enabled && is_zero c.warn_days then record c { warn_days = default_ssl_warn_days } else c

  -- `ApplyDefaults`
  unfoldable pub apply_defaults : SiteConfig → SiteConfig
  apply_defaults s = record s {
    interval_seconds =
        if is_zero s.interval_seconds then default_interval_seconds else s.interval_seconds;
    slow_interval_seconds =
        if is_zero s.slow_interval_seconds
        then default_slow_interval_seconds
        else s.slow_interval_seconds;
    checks = record (s.checks) { ssl = default_ssl s.checks.ssl };
    id = default_id s;
  }

  abbrev pub bad_scheme : ParsedUrl → Bool
  bad_scheme u = not (str_eq u.scheme "http") && not (str_eq u.scheme "https")

  -- The checks of `Validate` behind the URL, in order.
  unfoldable pub validate_fields : SiteConfig → Option String
  validate_fields s =
      if ltb_ℤ s.interval_seconds min_interval_seconds
      then some "interval_seconds must be >= 5"
      else if ltb_ℤ max_interval_seconds s.interval_seconds
      then some "interval_seconds must be <= 86400"
      else if ltb_ℤ s.slow_interval_seconds s.interval_seconds
      then some "slow_interval_seconds must be >= interval_seconds"
      else if ltb_ℤ max_interval_seconds s.slow_interval_seconds
      then some "slow_interval_seconds must be <= 86400"
      else if ltb_ℤ s.checks.latency.max_ms (pos 0)
      then some "latency.max_ms must be >= 0"
      else if ltb_ℤ s.checks.ssl.warn_days (pos 0)
      then some "ssl.warn_days must be >= 0"
      else if is_empty s.id
      then some "id could not be derived; supply id or name"
      else if not (is_slug s.id)
      then some "id must be a slug: lowercase letters, digits, hyphens"
      else none

  -- `Validate`: `none` is a nil error.
  unfoldable pub validate : SiteConfig → Option String
  unfolding validate_fields
  validate s =
      if is_empty (trim_space unicode s.url)
      then some "url is required"
      else elim (parse_url s.url) [
        | none ↦ some "invalid url"
        | some u ↦
            if bad_scheme u
            then some "url scheme must be http or https"
            else if is_empty u.host
            then some "url must include a host"
            else validate_fields s
      ]

  -- `Host`
  unfoldable pub host : SiteConfig → String
  host s = elim (parse_url s.url) [ none ↦ "" | some u ↦ u.hostname ]
