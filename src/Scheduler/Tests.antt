-- ===== src/Scheduler/Tests.antt =====
-- Runs of the scheduler, and its theorems at concrete schedules.
use uptime_monitor_api.Base.{ℕ, ◌≡◌, ◌↔◌, ◌≤◌, refl, true, false, none, some, List, [], ◌∷◌, All}
use uptime_monitor_api.Base.Int.{pos}
use uptime_monitor_api.Base.Text.{trim_space}
use uptime_monitor_api.Config.Slug.{is_slug}
use uptime_monitor_api.Config.{SiteConfig, validate}
use uptime_monitor_api.Db.{plain, ◌>>=◌}
use uptime_monitor_api.Db.Rowids.{counting}
use uptime_monitor_api.Scheduler.{
  Move, restarts, stops, starts_all, selects, ctx_done, ticker_fires, open_fails, move, moves,
  new_manager, shutdown,
}
use uptime_monitor_api.Scheduler.Tracking.{uncancelled}
use uptime_monitor_api.Scheduler.Running.{at_most_one, Loyal, plan, plans, moves-plans}
use uptime_monitor_api.Scheduler.Wait.{outstanding, steps, Selection, shutdown-drains}
use uptime_monitor_api.Scheduler.Loop.{Moment, ticks, slow_due}
use uptime_monitor_api.Scheduler.Loop.Committed.{
  listening, opened_loop, ups_seen, ups_stored, ticks-announced,
}
use uptime_monitor_api.Scheduler.Loop.Slow.{slow_due_iff}
use uptime_monitor_api.Checker.{responded, request_failed}
use uptime_monitor_api.Samples.{one_host, example_site}

abbrev other_site : SiteConfig
other_site = record example_site { id = "other" }

abbrev slower : SiteConfig
slower = record example_site { interval_seconds = pos 120 }

-- The first site is reconfigured, the other stopped and one of its loops seen to return.
abbrev busy_day : List Move
busy_day =
    starts_all (example_site ∷ other_site ∷ record other_site { id = "off"; enabled = false } ∷ [])
    ∷ restarts slower
    ∷ selects 0 ctx_done
    ∷ stops "other"
    ∷ open_fails 2
    ∷ []

one_runs : plans busy_day (λ _. none) "example" ≡ some slower
unfolding plan
one_runs = refl

moves-plans_example :
    (uncancelled "example" (moves {W = ℕ} busy_day new_manager).loops
      ≡ at_most_one (plans busy_day (λ _. none) "example"))
    × All Loyal (moves {W = ℕ} busy_day new_manager).loops
moves-plans_example = moves-plans ℕ busy_day "example"

two_left :
    outstanding
      (moves {W = ℕ}
        (starts_all (example_site ∷ other_site ∷ []) ∷ stops "other" ∷ [])
        new_manager).loops
    ≡ 2
unfolding move
two_left = refl

-- The first loop ticks once more after it is cancelled.
abbrev last_steps : List Selection
last_steps = (0, ticker_fires) ∷ (2, ctx_done) ∷ (0, ctx_done) ∷ (1, ctx_done) ∷ []

shutdown-drains_example :
    outstanding (moves (steps last_steps) (shutdown (moves {W = ℕ} busy_day new_manager))).loops ≡ 0
unfolding move
shutdown-drains_example = shutdown-drains ℕ busy_day last_steps (refl, (refl, (refl, tt)))

abbrev good_moment : ℕ → Moment
good_moment t = record {
  began = t;
  checked = t;
  ended = t;
  network = record {
    lookup_error = λ name. none;
    exchange = responded 20 (record { status_code = 200; body = "hello"; not_after = none });
  };
}

abbrev bad_moment : ℕ → Moment
bad_moment t = record (good_moment t) {
  network = record { lookup_error = λ name. none; exchange = request_failed 5 "refused" };
}

-- The second tick's transaction does not begin.
refused_once :
    let l =
      (ticks counting one_host
        (λ s. s)
        listening
        example_site
        (good_moment 1000 ∷ good_moment 2000 ∷ bad_moment 3000 ∷ [])
        (opened_loop 1)
        (none ∷ none ∷ none ∷ none ∷ none ∷ none ∷ some (plain "locked") ∷ [])).0 in
    ups_seen l.world ≡ 1 ∷ 0 ∷ []
unfolding ticks listening ◌>>=◌
refused_once = refl

ticks-announced_example :
    let l =
      (ticks counting one_host
        (λ s. s)
        listening
        example_site
        (good_moment 1000 ∷ good_moment 2000 ∷ bad_moment 3000 ∷ [])
        (opened_loop 1)
        (none ∷ none ∷ none ∷ none ∷ none ∷ none ∷ some (plain "locked") ∷ [])).0 in
    ups_seen l.world ≡ ups_stored l.db.check_results
ticks-announced_example =
    ticks-announced counting one_host (λ s. s) example_site
      (good_moment 1000 ∷ good_moment 2000 ∷ bad_moment 3000 ∷ []) 1
      (none ∷ none ∷ none ∷ none ∷ none ∷ none ∷ some (plain "locked") ∷ [])

example_valid : validate one_host example_site ≡ none
unfolding validate trim_space is_slug
example_valid = refl

slow_due_iff_example :
    (slow_due example_site (some 1000) 3600000001000 ≡ true) ↔ (3600000001000 ≤ 3600000001000)
slow_due_iff_example = slow_due_iff one_host example_site example_valid 1000 3600000001000
