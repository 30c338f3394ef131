-- ===== src/Site/Tick/Step.antt =====
-- One committed tick as a pure step on the tables, and `record_tick` as its transactional form.
use uptime_monitor_api.Base.{
  ℕ, ◌≡◌, refl, true, false, not, ◌&&◌, Option, none, some, List, [], ◌∷◌, if◌then◌else◌,
}
use uptime_monitor_api.Db.{Sqlite}
use uptime_monitor_api.Db.Runs.{
  Runs, Commits, Runs-pure, Runs-if, Runs-update, Runs-bind, Commits-transaction,
}
use uptime_monitor_api.Site.Tables.{SiteState, SiteDb, incident_ids}
use uptime_monitor_api.Site.Tick.{
  CheckError, Tick, Edge, no_edge, is_up_or_null, is_down, resolve, insert_result, insert_incident,
  insert_error, open_incident, close_incident, reconcile, log_errors, save_state, fails_after,
  transition, record_tick, load_state,
}

abbrev pub closed_edge : Option ℕ → Edge
closed_edge none = no_edge none
closed_edge (some id) = record { opened = false; resolved = true; edge_id = id; incident = none }

abbrev pub closed : Tick → Option ℕ → SiteDb → SiteDb
closed t none db = db
closed t (some id) db = record db { incidents = resolve id t.ts db.incidents }

module _ (sql : Sqlite) where
  open sql use {new_rowid}

  abbrev pub opened_edge : SiteDb → Edge
  opened_edge db =
      let id = new_rowid (incident_ids db.incidents) in
      record { opened = true; resolved = false; edge_id = id; incident = some id }

  -- the branch that the `switch` takes
  unfoldable pub edge : Tick → SiteState → SiteDb → Edge
  edge t st db =
      if not t.up && is_up_or_null st.current_up
      then opened_edge db
      else if t.up && is_down st.current_up
      then closed_edge st.current_incident_id
      else no_edge st.current_incident_id

  abbrev pub reconciled : Tick → SiteState → SiteDb → SiteDb
  reconciled t st db =
      if not t.up && is_up_or_null st.current_up
      then (insert_incident sql t db).1
      else if t.up && is_down st.current_up
      then closed t st.current_incident_id db
      else db

  abbrev pub logged : ℕ → List CheckError → SiteDb → SiteDb
  logged ts [] db = db
  logged ts (ce ∷ ces) db = logged ts ces (insert_error sql ts ce db)

  unfoldable pub applied : Tick → SiteState → SiteDb → SiteDb
  applied t st db =
      let db' = insert_result sql t db in
      let e = edge t st db' in
      save_state t (fails_after t st) e.incident (logged t.ts t.errors (reconciled t st db'))

  log_errors-Runs :
      (ts : ℕ) (ces : List CheckError) (db : SiteDb)
      → Runs (log_errors sql ts ces) db tt (logged ts ces db)
  unfolding log_errors
  log_errors-Runs ts [] db = Runs-pure tt db
  log_errors-Runs ts (ce ∷ ces) db =
      Runs-bind _ (Runs-update _ db tt (insert_error sql ts ce db) refl) (log_errors-Runs ts ces _)

  close_incident-Runs :
      (t : Tick) (incident : Option ℕ) (db : SiteDb)
      → Runs (close_incident t incident) db (closed_edge incident) (closed t incident db)
  unfolding close_incident
  close_incident-Runs t none db = Runs-pure _ db
  close_incident-Runs t (some id) db = Runs-bind _ (Runs-update _ db tt _ refl) (Runs-pure _ _)

  open_incident-Runs :
      (t : Tick) (db : SiteDb)
      → Runs (open_incident sql t) db (opened_edge db) (insert_incident sql t db).1
  unfolding open_incident
  open_incident-Runs t db = Runs-bind _ (Runs-update _ db _ _ refl) (Runs-pure _ _)

  reconcile-Runs :
      (t : Tick) (st : SiteState) (db : SiteDb)
      → Runs (reconcile sql t st) db (edge t st db) (reconciled t st db)
  unfolding reconcile edge
  reconcile-Runs t st db =
      Runs-if (not t.up && is_up_or_null st.current_up) (open_incident-Runs t db) (
        Runs-if (t.up && is_down st.current_up) (close_incident-Runs t st.current_incident_id db)
          (Runs-pure _ db))

  pub record_tick-applied :
      (t : Tick) (st : SiteState) (db : SiteDb)
      → db.site_state ≡ some st
      → Commits
          (record_tick sql t)
          db
          (transition t st (edge t st (insert_result sql t db)))
          (applied t st db)
  unfolding record_tick applied
  record_tick-applied t st db h = Commits-transaction (
      Runs-bind _ (Runs-update _ db tt (insert_result sql t db) refl) (
        Runs-bind _ (Runs-update load_state _ st _ (rw h)) (
          Runs-bind _ (reconcile-Runs t st _) (
            Runs-bind _ (log_errors-Runs t.ts t.errors _)
              (Runs-bind _ (Runs-update _ _ tt _ refl) (Runs-pure _ _))))))
