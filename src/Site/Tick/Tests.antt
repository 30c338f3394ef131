-- ===== src/Site/Tick/Tests.antt =====
-- Runs of `RecordTick`, and the site theorems at a concrete schedule.
use uptime_monitor_api.Base.{ℕ, ◌≡◌, refl, true, false, none, some, List, [], ◌∷◌, map}
use uptime_monitor_api.Base.Int.{pos}
use uptime_monitor_api.Base.Text.{join}
use uptime_monitor_api.Db.{Faults, plain, ◌>>=◌}
use uptime_monitor_api.Db.Runs.{Commits}
use uptime_monitor_api.Db.Rowids.{counting}
use uptime_monitor_api.Site.Tables.{SiteState, SiteDb, fresh_state}
use uptime_monitor_api.Site.Tick.{Tick, Transition, record_tick}
use uptime_monitor_api.Site.Tick.Recorded.{Recorded, record_tick-Commits}
use uptime_monitor_api.Site.Tick.Outages.{Outage, outages}
use uptime_monitor_api.Site.Tick.Invariant.{view, Health}
use uptime_monitor_api.Site.Tick.History.{
  Streak, run_ticks, fresh_site, incidents-eq-outages, consecutive_failures-Streak, site-Health,
}

abbrev up_at : ℕ → Tick
up_at ts = record {
  ts = ts;
  up = true;
  status_code = 200;
  response_ms = 12;
  failed_checks = [];
  error = "";
  errors = [];
  ssl_checked = false;
  ssl_expires_at = pos 0;
}

abbrev down_at : ℕ → Tick
down_at ts = record (up_at ts) {
  up = false;
  failed_checks = "http" ∷ [];
  error = "unexpected status 500";
}

-- The fourth tick's commit fails.
abbrev schedule : List (Tick × Faults)
schedule =
    (up_at 10, [])
    ∷ (down_at 20, [])
    ∷ (down_at 30, [])
    ∷ (up_at 40, none ∷ none ∷ none ∷ none ∷ none ∷ some (plain "disk full") ∷ [])
    ∷ (down_at 50, [])
    ∷ (up_at 60, [])
    ∷ (down_at 70, [])
    ∷ []

abbrev two_outages : List Outage
two_outages =
    record { started = 20; ended = some 60; cause = some "unexpected status 500" }
    ∷ record { started = 70; ended = none; cause = some "unexpected status 500" }
    ∷ []

two_incidents : map view (run_ticks counting schedule (fresh_site 5) []).0.incidents ≡ two_outages
unfolding run_ticks record_tick ◌>>=◌ join
two_incidents = refl

incidents-eq-outages_example :
    let (db, hist) = run_ticks counting schedule (fresh_site 5) [] in
    map view db.incidents ≡ outages hist
incidents-eq-outages_example = incidents-eq-outages counting 5 schedule

consecutive_failures-Streak_example :
    let (db, hist) = run_ticks counting schedule (fresh_site 5) [] in
    (st : SiteState) × (db.site_state ≡ some st) × Streak hist st.consecutive_failures
consecutive_failures-Streak_example = consecutive_failures-Streak counting 5 schedule

site-Health_example :
    let (db, hist) = run_ticks counting schedule (fresh_site 5) [] in
    (st : SiteState) × (db.site_state ≡ some st) × Health st db.incidents
site-Health_example = site-Health counting 5 schedule

record_tick-Commits_example :
    (tr : Transition) × (db' : SiteDb) × Commits
      (record_tick counting (down_at 20))
      (fresh_site 5)
      tr
      db'
    × Recorded counting (down_at 20) (fresh_state 5) (fresh_site 5) tr db'
record_tick-Commits_example =
    record_tick-Commits counting (down_at 20) (fresh_state 5) (fresh_site 5) refl
