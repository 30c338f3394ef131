-- ===== src/Scheduler/Loop.antt =====
-- internal/scheduler/scheduler.go: `runSite`, the loop of one site. What a tick meets outside of the
-- program, the clock and the network, is an argument. A panic that a tick recovers from is not
-- modelled.
pub mod Committed
pub mod Slow
use uptime_monitor_api.Base.{
  ℕ, ◌+◌, ◌-◌, ◌*◌, ◌%◌, ◌^◌, Bool, true, false, Option, none, some, List, [], ◌∷◌, String, ltb,
  leb, if◌then◌else◌,
}
use uptime_monitor_api.Base.Int.{ℤ, pos, negsuc}
use uptime_monitor_api.Config.{SiteConfig, Library}
use uptime_monitor_api.Db.{Faults, Result, ok, err, Sqlite}
use uptime_monitor_api.Site.Tables.{SiteDb}
use uptime_monitor_api.Site.Tick.{Transition, record_tick}
use uptime_monitor_api.Alerts.Message.{nanoseconds}
use uptime_monitor_api.Checker.{Network, run_tick}
use uptime_monitor_api.Scheduler.{Manager, notify}

-- A number of seconds as a `time.Duration`: 64 bits of nanoseconds.
unfoldable pub duration : ℤ → ℤ
duration (pos s) =
    let d = s * nanoseconds % 2 ^ 64 in if ltb d (2 ^ 63) then pos d else negsuc (2 ^ 64 - d - 1)
duration (negsuc s) =
    let d = ((s + 1) * nanoseconds - 1) % 2 ^ 64 in
    if ltb d (2 ^ 63) then negsuc d else pos (2 ^ 64 - d - 1)

-- `since >= d`, for the time passed from `last` to `now`.
abbrev pub has_passed : ℤ → ℕ → ℕ → Bool
has_passed (pos d) last now = leb (last + d) now
has_passed (negsuc d) last now = leb last (now + d + 1)

-- `time.Since(lastSlow) >= slow`. The zero time is so far back that the difference saturates.
unfoldable pub slow_due : SiteConfig → Option ℕ → ℕ → Bool
unfolding duration
slow_due site none now = true
slow_due site (some last) now = has_passed (duration site.slow_interval_seconds) last now

-- What a loop keeps and what its ticks act on.
pub record Loop (W : Type 0) : Type 0 where
  pub db : SiteDb
  pub last_slow : Option ℕ
  pub world : W

-- The three readings of the clock in a tick, and the network that the check meets.
pub record Moment : Type 0 where
  pub began : ℕ
  pub checked : ℕ
  pub ended : ℕ
  pub network : Network

module _ {W : Type 0} where
  -- What follows `RecordTick`.
  abbrev pub recorded :
      Manager W → SiteConfig → Option ℕ → W → Result Transition × SiteDb × Faults → Loop W × Faults
  recorded m site last w (ok tr, db, fs) =
      (record { db = db; last_slow = last; world = notify m site tr w }, fs)
  recorded m site last w (err e, db, fs) = (record { db = db; last_slow = last; world = w }, fs)

module _ {W : Type 0} (sql : Sqlite) (lib : Library) (quote : String → String) where
  -- `tick`
  unfoldable pub tick : Manager W → SiteConfig → Moment → Loop W → Faults → Loop W × Faults
  unfolding slow_due record_tick run_tick notify
  tick m site at l fs =
      let slow = slow_due site l.last_slow at.began in
      let result = run_tick lib quote at.checked at.network site slow in
      let last = (if slow then some at.ended else l.last_slow) in
      recorded m site last l.world (record_tick sql result l.db fs)

  -- The ticks of a loop: the first at once, then one for each firing of the ticker.
  unfoldable pub ticks : Manager W → SiteConfig → List Moment → Loop W → Faults → Loop W × Faults
  unfolding tick
  ticks m site [] l fs = (l, fs)
  ticks m site (at ∷ rest) l fs = let (l', fs') = tick m site at l fs in ticks m site rest l' fs'
