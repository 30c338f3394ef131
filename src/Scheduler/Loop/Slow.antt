-- ===== src/Scheduler/Loop/Slow.antt =====
-- internal/scheduler/scheduler.go: when a tick runs the slow checks.
use uptime_monitor_api.Base.{ℕ, ◌+◌, ◌*◌, ◌≤◌, ◌≡◌, ◌↔◌, true, none, some, arith}
use uptime_monitor_api.Base.Int.{ℤ, pos, negsuc, ◌≤ℤ◌, pos_part}
use uptime_monitor_api.Config.{
  SiteConfig, Library, validate, min_interval_seconds, max_interval_seconds,
}
use uptime_monitor_api.Config.Laws.{validate-IsUsable}
use uptime_monitor_api.Alerts.Message.{nanoseconds}
use uptime_monitor_api.Scheduler.Loop.{duration, slow_due, has_passed}

duration-day : (n : ℕ) → n ≤ 86400 → duration (pos n) ≡ pos (n * nanoseconds)
unfolding duration
duration-day n h = ground arith

has_passed_iff :
    (slow low : ℤ) (last now : ℕ)
    → min_interval_seconds ≤ℤ low
    → low ≤ℤ slow
    → slow ≤ℤ max_interval_seconds
    → (has_passed (duration slow) last now ≡ true) ↔ (last + pos_part slow * nanoseconds ≤ now)
has_passed_iff (pos n) low last now h k j = rw (duration-day n (ground arith)) (ground arith)
has_passed_iff (negsuc n) low last now h k j = absurd (ground arith)

-- For a configuration that `Validate` accepts, a tick runs the slow checks exactly when the whole
-- slow interval has passed since the end of the last slow one: the duration does not overflow.
pub slow_due_iff :
    (lib : Library) (site : SiteConfig)
    → validate lib site ≡ none
    → (last now : ℕ)
    → (slow_due site (some last) now ≡ true)
      ↔ (last + pos_part site.slow_interval_seconds * nanoseconds ≤ now)
unfolding slow_due
slow_due_iff lib site h last now =
    let u = validate-IsUsable lib site h in
    has_passed_iff site.slow_interval_seconds site.interval_seconds last now u.interval_low
      u.slow_low u.slow_high
