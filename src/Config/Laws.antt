-- ===== src/Config/Laws.antt =====
-- What `ApplyDefaults` and `Validate` guarantee.
use uptime_monitor_api.Base.{◌≡◌, ◌↔◌, ◌⊎◌, inl, inr, true, false, none, some, Option-cases, arith}
use uptime_monitor_api.Base.Int.{pos, ◌≤ℤ◌}
use uptime_monitor_api.Base.Text.{is_empty, eq_iff, trim_space}
use uptime_monitor_api.Config.Slug.{is_slug}
use uptime_monitor_api.Config.{
  SiteConfig, ParsedUrl, Library, apply_defaults, validate, min_interval_seconds,
  max_interval_seconds,
}

-- What `Validate` asks of a configuration.
pub record IsUsable (lib : Library) (s : SiteConfig) : Type 0 where
  pub url_given : is_empty (trim_space lib.unicode s.url) ≡ false
  pub target : ParsedUrl
  pub url_parses : lib.parse_url s.url ≡ some target
  pub web_scheme : (target.scheme ≡ "http") ⊎ (target.scheme ≡ "https")
  pub has_host : is_empty target.host ≡ false
  pub interval_low : min_interval_seconds ≤ℤ s.interval_seconds
  pub interval_high : s.interval_seconds ≤ℤ max_interval_seconds
  pub slow_low : s.interval_seconds ≤ℤ s.slow_interval_seconds
  pub slow_high : s.slow_interval_seconds ≤ℤ max_interval_seconds
  pub latency_max : pos 0 ≤ℤ s.checks.latency.max_ms
  pub warn_days : pos 0 ≤ℤ s.checks.ssl.warn_days
  pub id_given : is_empty s.id ≡ false
  pub id_slug : is_slug s.id ≡ true

module _ (lib : Library) (s : SiteConfig) where
  pub validate-IsUsable : validate lib s ≡ none → IsUsable lib s
  unfolding validate
  validate-IsUsable h = elim (Option-cases (lib.parse_url s.url)) [
    | inl bad ↦ absurd (ground arith)
    | inr (u, parsed) ↦ record {
      url_given = ground arith;
      target = u;
      url_parses = parsed;
      web_scheme = ground (arith, eq_iff u.scheme "http", eq_iff u.scheme "https");
      has_host = ground arith;
      interval_low = ground arith;
      interval_high = ground arith;
      slow_low = ground arith;
      slow_high = ground arith;
      latency_max = ground arith;
      warn_days = ground arith;
      id_given = ground arith;
      id_slug = ground arith;
    }
  ]

  pub IsUsable-validate : IsUsable lib s → validate lib s ≡ none
  unfolding validate
  IsUsable-validate u =
      ground (arith, eq_iff u.target.scheme "http", eq_iff u.target.scheme "https")

  -- Defaults that have been applied are not applied again: `ApplyDefaults` is idempotent.
  pub apply_defaults_idem : apply_defaults lib (apply_defaults lib s) ≡ apply_defaults lib s
  unfolding apply_defaults
  apply_defaults_idem = ground arith

-- `Validate` returns nil exactly for the usable configurations: a URL that parses, is http or https
-- and has a host, both intervals within 5 and 86400 seconds and the slow one not below the other, no
-- negative threshold, and an id that is a slug.
pub validate_iff : (lib : Library) (s : SiteConfig) → (validate lib s ≡ none) ↔ IsUsable lib s
validate_iff lib s = (validate-IsUsable lib s, IsUsable-validate lib s)
