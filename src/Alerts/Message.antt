-- ===== src/Alerts/Message.antt =====
-- internal/alerts/alerts.go: which alerts an event could raise, and how they read.
use uptime_monitor_api.Base.{
  ℕ, suc, ◌+◌, ◌-◌, ◌*◌, ◌/◌, Bool, true, not, ◌&&◌, Option, none, some, List, [], ◌∷◌, ◌++◌,
  String, ◌==◌, ltb, if◌then◌else◌,
}
use uptime_monitor_api.Base.Int.{ℤ, pos, negsuc, ltb_ℤ, sub_ℕ}
use uptime_monitor_api.Base.Text.{str_eq, is_empty, ◌⧺◌, trim_space, Unicode}
use uptime_monitor_api.Base.Decimal.{show, show_ℤ}
use uptime_monitor_api.Config.{SiteConfig, default_ssl_warn_days}
use uptime_monitor_api.Db.{Exec, pure, ◌>>=◌, attempt_option}
use uptime_monitor_api.Site.Tick.{Transition}
use uptime_monitor_api.Registry.Tables.{AlertChannel, AlertRule, RegistryDb}
use uptime_monitor_api.Registry.Deliveries.{delivery_exists}

abbrev pub site_down : String
site_down = "site_down"

abbrev pub site_recovered : String
site_recovered = "site_recovered"

abbrev pub ssl_expiring : String
ssl_expiring = "ssl_expiring"

-- `at` is in Unix seconds.
pub record Event : Type 0 where
  pub site : SiteConfig
  pub transition : Transition
  pub at : ℕ

pub record Message : Type 0 where
  pub subject : String
  pub body : String

abbrev when : Bool → String → List String
when b k = if b then k ∷ [] else []

-- `kindsFor`
unfoldable pub kinds_for : Event → List String
kinds_for e =
    let tr = e.transition in
    when (not tr.up && ltb 0 tr.consecutive_failures) site_down
    ++ when tr.incident_resolved site_recovered
    ++ when (tr.ssl_checked && ltb_ℤ (pos 0) tr.ssl_expires_at) ssl_expiring

-- The threshold of a site_down rule: at least one failure.
abbrev pub confirm : AlertRule → ℕ
confirm r = elim r.confirm_after [ pos n ↦ if ltb n 1 then 1 else n | negsuc n ↦ 1 ]

-- `fmt.Sprintf(tag + ":%s:%d:%d", site, id, channel)`
abbrev pub key_of : String → String → String → ℕ → String
key_of tag site_id id channel = tag ⧺ ":" ⧺ site_id ⧺ ":" ⧺ id ⧺ ":" ⧺ show channel

abbrev pub down_key : Event → AlertChannel → String
down_key e ch = key_of "down" e.site.id (show e.transition.incident_id) ch.id

abbrev pub up_key : Event → AlertChannel → String
up_key e ch = key_of "up" e.site.id (show e.transition.incident_id) ch.id

abbrev pub ssl_key : Event → AlertChannel → String
ssl_key e ch = key_of "ssl" e.site.id (show_ℤ e.transition.ssl_expires_at) ch.id

abbrev pub nanoseconds : ℕ
nanoseconds = 1000000000

abbrev pub day : ℕ
day = 86400 * nanoseconds

-- The quotient by the days, towards 0, as Go's `int(…)` has it.
abbrev quot_days : ℤ → ℤ
quot_days (pos n) = pos (n / day)
quot_days (negsuc n) = let q = suc n / day in if q == 0 then pos 0 else negsuc (q - 1)

abbrev until : ℤ → ℕ → ℤ
until (pos expiry) now = sub_ℕ (expiry * nanoseconds) now
until (negsuc n) now = negsuc (suc n * nanoseconds + now - 1)

-- Whole days from the time `now`, in Unix nanoseconds, to the expiry. The source goes through a
-- floating-point number of hours, whose rounding is not modelled, nor is the saturation of a
-- Duration at 292 years.
unfoldable pub days_left : ℤ → ℕ → ℤ
days_left expiry now = quot_days (until expiry now)

abbrev pub warn_days : SiteConfig → ℤ
warn_days site =
    let warn = site.checks.ssl.warn_days in
    if ltb_ℤ (pos 0) warn then warn else default_ssl_warn_days

-- What the messages take from the Go library: the Unicode tables, and the UTC time in the layout
-- "2006-01-02 15:04:05 UTC" of Unix seconds.
pub record Format : Type 0 where
  pub unicode : Unicode
  pub utc : ℤ → String

module _ (format : Format) where
  open format use {unicode, utc}

  -- `orDash`
  unfoldable pub or_dash : String → String
  unfolding trim_space
  or_dash s = if is_empty (trim_space unicode s) then "-" else s

  abbrev pub down_message : Event → Message
  down_message e = record {
    subject = "[DOWN] " ⧺ e.site.name;
    body =
        e.site.name
        ⧺ " is DOWN.\n\nURL:      "
        ⧺ e.site.url
        ⧺ "\nDetected: "
        ⧺ utc (pos e.at)
        ⧺ "\nFailures: "
        ⧺ show e.transition.consecutive_failures
        ⧺ " consecutive\nError:    "
        ⧺ or_dash e.transition.error
        ⧺ "\n";
  }

  abbrev pub up_message : Event → Message
  up_message e = record {
    subject = "[RECOVERED] " ⧺ e.site.name;
    body =
        e.site.name
        ⧺ " is back UP.\n\nURL:       "
        ⧺ e.site.url
        ⧺ "\nRecovered: "
        ⧺ utc (pos e.at)
        ⧺ "\n";
  }

  abbrev pub ssl_message : Event → ℤ → Message
  ssl_message e days = record {
    subject = "[SSL] " ⧺ e.site.name ⧺ " certificate expires in " ⧺ show_ℤ days ⧺ " day(s)";
    body =
        "The TLS certificate for "
        ⧺ e.site.name
        ⧺ " expires soon.\n\nURL:     "
        ⧺ e.site.url
        ⧺ "\nExpires: "
        ⧺ utc e.transition.ssl_expires_at
        ⧺ " ("
        ⧺ show_ℤ days
        ⧺ " day(s))\nChecked: "
        ⧺ utc (pos e.at)
        ⧺ "\n";
  }

  abbrev pub render_down : Event → AlertRule → AlertChannel → Option (Message × String)
  render_down e rule ch =
      if e.transition.consecutive_failures == confirm rule
      then some (down_message e, down_key e ch)
      else none

  abbrev pub announced : Event → AlertChannel → Option Bool → Option (Message × String)
  announced e ch (some true) = some (up_message e, up_key e ch)
  announced e ch _ = none

  abbrev pub render_ssl : Event → AlertChannel → ℕ → Option (Message × String)
  render_ssl e ch now =
      let days = days_left e.transition.ssl_expires_at now in
      if ltb_ℤ (warn_days e.site) days then none else some (ssl_message e days, ssl_key e ch)

  -- `render`, at the time `now` in nanoseconds; `none` when the rule does not fire.
  unfoldable pub render :
      Event → String → AlertRule → AlertChannel → ℕ → Exec RegistryDb (Option (Message × String))
  unfolding days_left or_dash
  render e kind rule ch now =
      if str_eq kind site_down
      then pure (render_down e rule ch)
      else if str_eq kind site_recovered
      then (attempt_option (delivery_exists (down_key e ch)) >>= λ found.
          pure (announced e ch found))
      else if str_eq kind ssl_expiring
      then pure (render_ssl e ch now)
      else pure none
