-- ===== src/Site/Tick/History.antt =====
-- A site's life: a schedule of ticks, each met by its own engine faults. A tick whose transaction
-- fails leaves nothing (the scheduler logs it and goes on).
use mathlib.Core.List.{append-nil, append_assoc}
use uptime_monitor_api.Base.{
  ℕ, ◌+◌, ◌≡◌, refl, subst, ap, sym, ◌∙◌, true, false, Bool-cases, inl, inr, ◌⊎◌, some, List, [],
  ◌∷◌, ◌++◌, map, arith, All, All-append, length, length-append,
}
use uptime_monitor_api.Db.{Sqlite, Faults, Result, ok, err}
use uptime_monitor_api.Db.Runs.{CommitsAt}
use uptime_monitor_api.Site.Tables.{SiteState, SiteDb, init_state, empty_site, fresh_state}
use uptime_monitor_api.Site.Tick.{Tick, Transition, record_tick, transition, insert_result}
use uptime_monitor_api.Site.Tick.Step.{edge, applied, record_tick-applied}
use uptime_monitor_api.Site.Tick.Outages.{outages, outages-snoc, extend}
use uptime_monitor_api.Site.Tick.Invariant.{
  view, Health, calm, next, next-Health, reconciled-extend, applied-incidents, applied-site_state,
}

-- The failing ticks at the end of a history: `run` of them, after a tick that was up or none at all.
pub data EndsUp : List Tick → Type 0 where
  start : EndsUp []
  after_up : (ts : List Tick) (t : Tick) → t.up ≡ true → EndsUp (ts ++ t ∷ [])

pub record Streak (hist : List Tick) (n : ℕ) : Type 0 where
  pub before : List Tick
  pub run : List Tick
  pub parts : hist ≡ before ++ run
  pub before_up : EndsUp before
  pub run_down : All (λ t. t.up ≡ false) run
  pub counted : length run ≡ n

Streak-up : (hist : List Tick) (t : Tick) → t.up ≡ true → Streak (hist ++ t ∷ []) 0
Streak-up hist t u = record {
  before = hist ++ t ∷ [];
  run = [];
  parts = sym (append-nil _);
  before_up = after_up hist t u;
  run_down = tt;
  counted = refl;
}

Streak-down :
    (hist : List Tick) (n : ℕ) (t : Tick)
    → t.up ≡ false
    → Streak hist n
    → Streak (hist ++ t ∷ []) (n + 1)
Streak-down hist n t d s = record {
  before = s.before;
  run = s.run ++ t ∷ [];
  parts = ap (λ l. l ++ t ∷ []) s.parts ∙ append_assoc s.before s.run (t ∷ []);
  before_up = s.before_up;
  run_down = All-append _ s.run _ s.run_down (d, tt);
  counted = length-append s.run (t ∷ []) ∙ ap (λ k. k + 1) s.counted;
}

-- The database after a committed history.
pub record Tracks (hist : List Tick) (db : SiteDb) : Type 0 where
  pub state : SiteState
  pub is_state : db.site_state ≡ some state
  pub health : Health state db.incidents
  pub logged_outages : map view db.incidents ≡ outages hist
  pub streak : Streak hist state.consecutive_failures

-- A database that was just opened for the first time.
abbrev pub fresh_site : ℕ → SiteDb
fresh_site now = init_state now empty_site

module _ (sql : Sqlite) where
  applied-Tracks :
      (hist : List Tick) (db : SiteDb) (t : Tick) (k : Tracks hist db)
      → Tracks (hist ++ t ∷ []) (applied sql t k.state db)
  applied-Tracks hist db t k = record {
    state = next sql t k.state db;
    is_state = applied-site_state sql t k.state db k.is_state;
    health =
        rw (applied-incidents sql t k.state db k.is_state) (next-Health sql t k.state db k.health);
    logged_outages =
        ap (map view) (applied-incidents sql t k.state db k.is_state)
        ∙ reconciled-extend sql t k.state db k.health
        ∙ ap (λ l. extend l t) k.logged_outages
        ∙ sym (outages-snoc hist t);
    streak = next_streak (Bool-cases t.up);
  }
    where
      fails_when_up : t.up ≡ true → 0 ≡ (next sql t k.state db).consecutive_failures
      fails_when_up u = ground arith

      fails_when_down :
          t.up ≡ false
          → k.state.consecutive_failures + 1 ≡ (next sql t k.state db).consecutive_failures
      fails_when_down d = ground arith

      next_streak :
          (t.up ≡ true) ⊎ (t.up ≡ false)
          → Streak (hist ++ t ∷ []) (next sql t k.state db).consecutive_failures
      next_streak (inl u) = subst (Streak (hist ++ t ∷ [])) (fails_when_up u) (Streak-up hist t u)
      next_streak (inr d) =
          subst (Streak (hist ++ t ∷ [])) (fails_when_down d) (Streak-down hist _ t d k.streak)

  abbrev recorded : List Tick → Tick → Result Transition → List Tick
  recorded hist t (ok _) = hist ++ t ∷ []
  recorded hist t (err _) = hist

  -- The tables after the schedule, and the ticks that were committed.
  unfoldable pub run_ticks : List (Tick × Faults) → SiteDb → List Tick → SiteDb × List Tick
  run_ticks [] db hist = (db, hist)
  run_ticks ((t, fs) ∷ rest) db hist =
      let (r, db', _) = record_tick sql t db fs in run_ticks rest db' (recorded hist t r)

  outcome-Tracks :
      (hist : List Tick) (db : SiteDb) (t : Tick) (fs : Faults) (k : Tracks hist db)
      (o : Result Transition × SiteDb × Faults)
      → CommitsAt db
          (transition t k.state (edge sql t k.state (insert_result sql t db)))
          (applied sql t k.state db)
          fs
          o
      → Tracks (recorded hist t o.0) o.1
  outcome-Tracks hist db t fs k (ok a, db', fs') c = rw c.1 (applied-Tracks hist db t k)
  outcome-Tracks hist db t fs k (err e, db', fs') c = rw c.0 k

  run_ticks-Tracks :
      (sched : List (Tick × Faults)) (db : SiteDb) (hist : List Tick)
      → Tracks hist db
      → let (db', hist') = run_ticks sched db hist in Tracks hist' db'
  unfolding run_ticks
  run_ticks-Tracks [] db hist k = k
  run_ticks-Tracks ((t, fs) ∷ rest) db hist k = run_ticks-Tracks rest _ _ (
      outcome-Tracks hist db t fs k (record_tick sql t db fs)
        ((record_tick-applied sql t k.state db k.is_state).at fs))

  fresh_site-Tracks : (now : ℕ) → Tracks [] (fresh_site now)
  unfolding outages
  fresh_site-Tracks now = record {
    state = fresh_state now;
    is_state = refl;
    health = calm refl refl refl refl tt;
    logged_outages = refl;
    streak = record {
      before = [];
      run = [];
      parts = refl;
      before_up = start;
      run_down = tt;
      counted = refl;
    };
  }

  -- From a database just opened, through any schedule of ticks and engine faults: the incidents are
  -- the outages of the committed history, one for each maximal run of failing ticks, with its first
  -- tick's time and error and the time of the tick that ended it.
  pub incidents-eq-outages :
      (now : ℕ) (sched : List (Tick × Faults))
      → let (db, hist) = run_ticks sched (fresh_site now) [] in map view db.incidents ≡ outages hist
  incidents-eq-outages now sched =
      (run_ticks-Tracks sched _ [] (fresh_site-Tracks now)).logged_outages

  -- From a database just opened, through any schedule of ticks and engine faults: the state row is
  -- there and counts the failing ticks at the end of the history.
  pub consecutive_failures-Streak :
      (now : ℕ) (sched : List (Tick × Faults))
      → let (db, hist) = run_ticks sched (fresh_site now) [] in
        (st : SiteState) × (db.site_state ≡ some st) × Streak hist st.consecutive_failures
  consecutive_failures-Streak now sched =
      let k = run_ticks-Tracks sched _ [] (fresh_site-Tracks now) in (k.state, k.is_state, k.streak)

  -- From a database just opened, through any schedule of ticks and engine faults: the state row and the incidents fit together: no incident is open unless the
  -- site is down, and then the last one is, it alone, and the state row points to it.
  pub site-Health :
      (now : ℕ) (sched : List (Tick × Faults))
      → let (db, hist) = run_ticks sched (fresh_site now) [] in
        (st : SiteState) × (db.site_state ≡ some st) × Health st db.incidents
  site-Health now sched =
      let k = run_ticks-Tracks sched _ [] (fresh_site-Tracks now) in (k.state, k.is_state, k.health)
