-- ===== src/Config/Defaults.antt =====
-- internal/config/config.go: what `ApplyDefaults` makes of a configuration.
use uptime_monitor_api.Base.{
  ◌≡◌, ◌⊎◌, inl, inr, refl, ap, zero, suc, true, false, ◌&&◌, some, if◌then◌else◌, arith,
  Bool-cases,
}
use uptime_monitor_api.Base.Int.{ℤ, pos, negsuc, eqb_ℤ, ◌≤ℤ◌}
use uptime_monitor_api.Base.Text.{is_empty, trim_space}
use uptime_monitor_api.Config.Slug.{slugify}
use uptime_monitor_api.Config.Slug.Laws.{slugify-is_slug}
use uptime_monitor_api.Config.Laws.{IsUsable, apply_defaults_idem}
use uptime_monitor_api.Config.{
  SiteConfig, SslCheck, ParsedUrl, Library, apply_defaults, default_ssl,
}

-- The value that is given, or the default for none.
abbrev pub or_default : ℤ → ℤ → ℤ
or_default d (pos zero) = d
or_default d (pos (suc n)) = pos (suc n)
or_default d (negsuc n) = negsuc n

-- A configuration that is usable as it stands, or one that gives a name and a web address and leaves
-- the rest to the defaults.
pub data Fillable (lib : Library) (s : SiteConfig) : Type 0 where
  usable : IsUsable lib s → Fillable lib s
  minimal :
      (u : ParsedUrl)
      → is_empty (trim_space lib.unicode s.url) ≡ false
      → lib.parse_url s.url ≡ some u
      → (u.scheme ≡ "http") ⊎ (u.scheme ≡ "https")
      → is_empty u.host ≡ false
      → s.interval_seconds ≡ pos 0
      → s.slow_interval_seconds ≡ pos 0
      → pos 0 ≤ℤ s.checks.latency.max_ms
      → pos 0 ≤ℤ s.checks.ssl.warn_days
      → is_empty s.id ≡ true
      → is_empty (slugify lib.unicode s.name) ≡ false
      → Fillable lib s

pub record Filled (lib : Library) (s s' : SiteConfig) : Type 0 where
  pub is_usable : IsUsable lib s'
  pub interval : s'.interval_seconds ≡ or_default (pos 60) s.interval_seconds
  pub slow_interval : s'.slow_interval_seconds ≡ or_default (pos 3600) s.slow_interval_seconds
  pub warning : s'.checks.ssl.warn_days ≡ (
      if s.checks.ssl.enabled
      then or_default (pos 14) s.checks.ssl.warn_days
      else s.checks.ssl.warn_days)
  pub identity : s'.id ≡ (if is_empty s.id then slugify lib.unicode s.name else s.id)
  pub others :
      record s' {
        id = s.id;
        interval_seconds = s.interval_seconds;
        slow_interval_seconds = s.slow_interval_seconds;
        checks = record (s'.checks) {
          ssl = record (s'.checks.ssl) { warn_days = s.checks.ssl.warn_days };
        };
      }
      ≡ s
  pub again : apply_defaults lib s' ≡ s'

or_default-zero : (d n : ℤ) → (if eqb_ℤ n (pos 0) then d else n) ≡ or_default d n
or_default-zero d (pos zero) = refl
or_default-zero d (pos (suc n)) = ground arith
or_default-zero d (negsuc n) = ground arith

module _ (lib : Library) (s : SiteConfig) where
  filled-warning :
      (c : SslCheck)
      → (default_ssl lib c).warn_days
        ≡ (if c.enabled then or_default (pos 14) c.warn_days else c.warn_days)
  filled-warning c = let n = or_default-zero (pos 14) c.warn_days in ground (arith, n)

  filled-others : (c : SslCheck) → record (default_ssl lib c) { warn_days = c.warn_days } ≡ c
  filled-others c = elim (Bool-cases (c.enabled && eqb_ℤ c.warn_days (pos 0))) [
    | inl e ↦ rw e refl
    | inr e ↦ rw e refl
  ]

  filled-IsUsable : Fillable lib s → IsUsable lib (apply_defaults lib s)
  unfolding apply_defaults
  filled-IsUsable (usable h) =
      let low = h.interval_low in
      let high = h.interval_high in
      let slow_low = h.slow_low in
      let slow_high = h.slow_high in
      let warn = h.warn_days in
      let given = h.id_given in
      let slug = h.id_slug in
      record {
        url_given = h.url_given;
        target = h.target;
        url_parses = h.url_parses;
        web_scheme = h.web_scheme;
        has_host = h.has_host;
        interval_low = ground arith;
        interval_high = ground arith;
        slow_low = ground arith;
        slow_high = ground arith;
        latency_max = h.latency_max;
        warn_days = ground arith;
        id_given = ground arith;
        id_slug = ground arith;
      }
  filled-IsUsable (minimal u a b c d e f g h i j) = elim (slugify-is_slug lib.unicode s.name) [
    | inl empty ↦ absurd (ground arith)
    | inr slug ↦ record {
      url_given = a;
      target = u;
      url_parses = b;
      web_scheme = c;
      has_host = d;
      interval_low = ground arith;
      interval_high = ground arith;
      slow_low = ground arith;
      slow_high = ground arith;
      latency_max = g;
      warn_days = ground arith;
      id_given = ground arith;
      id_slug = ground arith;
    }
  ]

  filled-identity :
      Fillable lib s
      → (apply_defaults lib s).id ≡ (if is_empty s.id then slugify lib.unicode s.name else s.id)
  unfolding apply_defaults
  filled-identity (usable h) = let given = h.id_given in ground arith
  filled-identity (minimal u a b c d e f g h i j) = ground arith

  -- A configuration that is usable, or that gives no more than a name and a web address, is usable once
  -- the defaults are applied: what was given is kept, the intervals are 60 and 3600 seconds and the
  -- warning of an enabled certificate check 14 days where none was given, the id is the slug of the
  -- name where none was given, nothing else changes, and applying the defaults again changes nothing.
  pub apply_defaults-Filled : Fillable lib s → Filled lib s (apply_defaults lib s)
  unfolding apply_defaults
  apply_defaults-Filled h = record {
    is_usable = filled-IsUsable h;
    interval = or_default-zero (pos 60) s.interval_seconds;
    slow_interval = or_default-zero (pos 3600) s.slow_interval_seconds;
    warning = filled-warning s.checks.ssl;
    identity = filled-identity h;
    others =
        ap (λ c. record s { checks = record (s.checks) { ssl = c } }) (filled-others s.checks.ssl);
    again = apply_defaults_idem lib s;
  }
