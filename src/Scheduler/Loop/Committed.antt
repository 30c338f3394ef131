-- ===== src/Scheduler/Loop/Committed.antt =====
-- internal/scheduler/scheduler.go: what the transition hook sees of the ticks of a site.
use uptime_monitor_api.Base.{
  ℕ, ◌≡◌, refl, ap, ◌∙◌, sym, Option, none, some, List, [], ◌∷◌, ◌++◌, map, String, arith,
}
use uptime_monitor_api.Config.{SiteConfig, Library}
use uptime_monitor_api.Db.{Faults, Result, ok, err, Sqlite}
use uptime_monitor_api.Db.Runs.{CommitsAt}
use uptime_monitor_api.Site.Tables.{SiteDb, SiteState, ResultRow, bool_to_int, fresh_state}
use uptime_monitor_api.Site.Tick.History.{fresh_site}
use uptime_monitor_api.Site.Tick.Invariant.{applied-site_state}
use uptime_monitor_api.Site.Tick.{
  Tick, Transition, CheckError, insert_result, insert_error, save_state, record_tick, transition,
}
use uptime_monitor_api.Site.Tick.Step.{edge, reconciled, logged, applied, record_tick-applied}
use uptime_monitor_api.Checker.{run_tick}
use uptime_monitor_api.Scheduler.{Manager, new_manager, on_transition, notify}
use uptime_monitor_api.Scheduler.Loop.{Loop, Moment, tick, ticks, recorded, slow_due}

-- A hook that writes down what it is told.
unfoldable pub listening : Manager (List Transition)
unfolding on_transition
listening = on_transition (some (λ site tr seen. seen ++ tr ∷ [])) new_manager

abbrev pub ups_seen : List Transition → List ℕ
ups_seen = map (λ tr. bool_to_int tr.up)

abbrev pub ups_stored : List ResultRow → List ℕ
ups_stored = map (λ r. r.up)

abbrev HasState : SiteDb → Type 0
HasState db = (st : SiteState) × (db.site_state ≡ some st)

-- A loop over a database that was just opened for the first time.
abbrev pub opened_loop : ℕ → Loop (List Transition)
opened_loop now = record { db = fresh_site now; last_slow = none; world = [] }

record Heard (l : Loop (List Transition)) : Type 0 where
  has_state : HasState l.db
  same : ups_seen l.world ≡ ups_stored l.db.check_results

ups_seen-snoc :
    (trs : List Transition) (tr : Transition)
    → ups_seen (trs ++ tr ∷ []) ≡ ups_seen trs ++ bool_to_int tr.up ∷ []
ups_seen-snoc [] tr = refl
ups_seen-snoc (x ∷ trs) tr = ap (λ l. bool_to_int x.up ∷ l) (ups_seen-snoc trs tr)

ups_stored-snoc :
    (rs : List ResultRow) (r : ResultRow) → ups_stored (rs ++ r ∷ []) ≡ ups_stored rs ++ r.up ∷ []
ups_stored-snoc [] r = refl
ups_stored-snoc (x ∷ rs) r = ap (λ l. x.up ∷ l) (ups_stored-snoc rs r)

module _ (sql : Sqlite) where
  logged-check_results :
      (ts : ℕ) (ces : List CheckError) (db : SiteDb)
      → (logged sql ts ces db).check_results ≡ db.check_results
  logged-check_results ts [] db = refl
  logged-check_results ts (ce ∷ ces) db = logged-check_results ts ces (insert_error sql ts ce db)

  save_state-check_results :
      (t : Tick) (fails : ℕ) (inc : Option ℕ) (db : SiteDb)
      → (save_state t fails inc db).check_results ≡ db.check_results
  unfolding save_state
  save_state-check_results t fails inc db = ground arith

  reconciled-check_results :
      (t : Tick) (st : SiteState) (db : SiteDb)
      → (reconciled sql t st db).check_results ≡ db.check_results
  reconciled-check_results t st db = ground arith

  applied-check_results :
      (t : Tick) (st : SiteState) (db : SiteDb)
      → (applied sql t st db).check_results ≡ (insert_result sql t db).check_results
  unfolding applied
  applied-check_results t st db =
      save_state-check_results t _ _ _
      ∙ logged-check_results t.ts t.errors _
      ∙ reconciled-check_results t st (insert_result sql t db)

  module _ (site : SiteConfig) (last : Option ℕ) (t : Tick) where
    outcome-Heard :
        (l : Loop (List Transition)) (k : Heard l) (fs : Faults)
        (o : Result Transition × SiteDb × Faults)
        → CommitsAt l.db
            (transition t k.has_state.0 (edge sql t k.has_state.0 (insert_result sql t l.db)))
            (applied sql t k.has_state.0 l.db)
            fs
            o
        → Heard (recorded listening site last l.world o).0
    unfolding notify listening
    outcome-Heard l k fs (ok answer, db, gs) c =
        rw (c.0, c.1)
          (record {
            has_state = (_, applied-site_state sql t k.has_state.0 l.db k.has_state.1);
            same =
                ups_seen-snoc l.world _
                ∙ ap (λ us. us ++ bool_to_int t.up ∷ []) k.same
                ∙ sym (
                    ap ups_stored (applied-check_results t k.has_state.0 l.db)
                    ∙ ups_stored-snoc l.db.check_results _);
          })
    outcome-Heard l k fs (err e, db, gs) c =
        rw c.0 (record { has_state = k.has_state; same = k.same })

  module _ (lib : Library) (quote : String → String) (site : SiteConfig) where
    tick-Heard :
        (at : Moment) (l : Loop (List Transition)) (fs : Faults)
        → Heard l
        → Heard (tick sql lib quote listening site at l fs).0
    unfolding tick
    tick-Heard at l fs k =
        let t =
          run_tick lib quote at.checked at.network site (slow_due site l.last_slow at.began) in
        outcome-Heard site _ t l k fs (record_tick sql t l.db fs)
          ((record_tick-applied sql t k.has_state.0 l.db k.has_state.1).at fs)

    ticks-Heard :
        (ats : List Moment) (l : Loop (List Transition)) (fs : Faults)
        → Heard l
        → Heard (ticks sql lib quote listening site ats l fs).0
    unfolding ticks
    ticks-Heard [] l fs k = k
    ticks-Heard (at ∷ ats) l fs k =
        let r = tick sql lib quote listening site at l fs in
        ticks-Heard ats r.0 r.1 (tick-Heard at l fs k)

    -- Over any ticks of a site that starts with no result stored, whatever statements the engine
    -- refuses, the transition hook is told of exactly the ticks whose transaction has committed, in
    -- their order: what it heard of each, up or down, is the column of the stored results.
    pub ticks-announced :
        (ats : List Moment) (now : ℕ) (fs : Faults)
        → let l = (ticks sql lib quote listening site ats (opened_loop now) fs).0 in
          ups_seen l.world ≡ ups_stored l.db.check_results
    ticks-announced ats now fs =
        (ticks-Heard ats (opened_loop now) fs
          (record { has_state = (fresh_state now, refl); same = refl })).same
