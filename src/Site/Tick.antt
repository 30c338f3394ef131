-- ===== src/Site/Tick.antt =====
-- internal/storage/tick.go: a tick's outcome, and `RecordTick`, which writes it and reconciles the
-- incident state in one transaction.
pub mod Step
pub mod Outages
pub mod Invariant
pub mod Recorded
pub mod History
mod Tests
use uptime_monitor_api.Base.{
  ℕ, ◌+◌, Bool, true, false, not, ◌&&◌, Option, none, some, List, [], ◌∷◌, ◌++◌, String, ◌==◌,
  if◌then◌else◌,
}
use uptime_monitor_api.Base.Int.{ℤ, pos, ltb_ℤ}
use uptime_monitor_api.Base.Text.{is_empty, join}
use uptime_monitor_api.Db.{
  Exec, Result, ok, err, no_rows, pure, ◌>>=◌, ◌>>◌, update, transaction, Sqlite,
}
use uptime_monitor_api.Site.Tables.{
  IncidentRow, SiteState, SiteDb, result_ids, incident_ids, error_ids, bool_to_int,
}

pub record CheckError : Type 0 where
  pub check_type : String
  pub message : String

pub record Tick : Type 0 where
  pub ts : ℕ
  pub up : Bool
  pub status_code : ℕ
  pub response_ms : ℕ
  pub failed_checks : List String
  pub error : String
  pub errors : List CheckError
  pub ssl_checked : Bool
  pub ssl_expires_at : ℤ

-- `AddFail`
unfoldable pub add_fail : String → String → Tick → Tick
add_fail check_type message t = record t {
  failed_checks = t.failed_checks ++ check_type ∷ [];
  errors = t.errors ++ record { check_type = check_type; message = message } ∷ [];
  error = if is_empty t.error then message else t.error;
}

pub record Transition : Type 0 where
  pub incident_opened : Bool
  pub incident_resolved : Bool
  pub incident_id : ℕ
  pub consecutive_failures : ℕ
  pub up : Bool
  pub error : String
  pub ssl_expires_at : ℤ
  pub ssl_checked : Bool

abbrev pub null_string : String → Option String
null_string s = if is_empty s then none else some s

-- What the `switch` of `RecordTick` leaves in its variables.
pub record Edge : Type 0 where
  pub opened : Bool
  pub resolved : Bool
  pub edge_id : ℕ
  pub incident : Option ℕ

abbrev pub no_edge : Option ℕ → Edge
no_edge incident = record { opened = false; resolved = false; edge_id = 0; incident = incident }

abbrev pub is_up_or_null : Option ℕ → Bool
is_up_or_null none = true
is_up_or_null (some up) = up == 1

abbrev pub is_down : Option ℕ → Bool
is_down none = false
is_down (some up) = up == 0

abbrev pub resolve : ℕ → ℕ → List IncidentRow → List IncidentRow
resolve id ts [] = []
resolve id ts (i ∷ is) =
    (if i.id == id then record i { resolved_at = some ts } else i) ∷ resolve id ts is

unfoldable pub close_incident : Tick → Option ℕ → Exec SiteDb Edge
close_incident t none = pure (no_edge none)
close_incident t (some id) = do
  update (λ db. (ok tt, record db { incidents = resolve id t.ts db.incidents }))
  pure (record { opened = false; resolved = true; edge_id = id; incident = none })

abbrev pub load_state : SiteDb → Result SiteState × SiteDb
load_state db = elim db.site_state [ none ↦ (err no_rows, db) | some st ↦ (ok st, db) ]

-- The two UPDATEs of `site_state`; one of no row is no error.
abbrev pub next_state : Tick → ℕ → Option ℕ → SiteState → SiteState
next_state t fails incident st =
    let st' = record st {
      last_check_ts = some t.ts;
      current_up = some (bool_to_int t.up);
      current_incident_id = incident;
      consecutive_failures = fails;
    } in
    if t.ssl_checked
    then record st' {
      ssl_expires_at = if ltb_ℤ (pos 0) t.ssl_expires_at then some t.ssl_expires_at else none;
      ssl_last_checked = some t.ts;
    }
    else st'

unfoldable pub save_state : Tick → ℕ → Option ℕ → SiteDb → SiteDb
save_state t fails incident db = elim db.site_state [
  | none ↦ db
  | some st ↦ record db { site_state = some (next_state t fails incident st) }
]

abbrev pub fails_after : Tick → SiteState → ℕ
fails_after t st = if t.up then 0 else st.consecutive_failures + 1

abbrev pub transition : Tick → SiteState → Edge → Transition
transition t st e = record {
  incident_opened = e.opened;
  incident_resolved = e.resolved;
  incident_id = e.edge_id;
  consecutive_failures = fails_after t st;
  up = t.up;
  error = t.error;
  ssl_expires_at = t.ssl_expires_at;
  ssl_checked = t.ssl_checked;
}

module _ (sql : Sqlite) where
  open sql use {new_rowid}

  abbrev pub insert_result : Tick → SiteDb → SiteDb
  insert_result t db = record db {
    check_results =
        db.check_results
        ++ record {
          id = new_rowid (result_ids db.check_results);
          ts = t.ts;
          up = bool_to_int t.up;
          status_code = t.status_code;
          response_ms = t.response_ms;
          failed_checks = null_string (join "," t.failed_checks);
          error = null_string t.error;
        }
          ∷ [];
  }

  -- The answer is `LastInsertId`.
  abbrev pub insert_incident : Tick → SiteDb → Result ℕ × SiteDb
  insert_incident t db =
      let id = new_rowid (incident_ids db.incidents) in
      (
        ok id,
        record db {
          incidents =
              db.incidents
              ++ record {
                id = id;
                started_at = t.ts;
                resolved_at = none;
                cause = null_string t.error;
              }
                ∷ [];
        },
      )

  abbrev pub insert_error : ℕ → CheckError → SiteDb → SiteDb
  insert_error ts ce db = record db {
    errors =
        db.errors
        ++ record {
          id = new_rowid (error_ids db.errors);
          ts = ts;
          check_type = ce.check_type;
          message = ce.message;
        }
          ∷ [];
  }

  unfoldable pub open_incident : Tick → Exec SiteDb Edge
  open_incident t = do
    id ← update (insert_incident t)
    pure (record { opened = true; resolved = false; edge_id = id; incident = some id })

  -- the `switch`
  unfoldable pub reconcile : Tick → SiteState → Exec SiteDb Edge
  unfolding open_incident close_incident
  reconcile t st =
      if not t.up && is_up_or_null st.current_up
      then open_incident t
      else if t.up && is_down st.current_up
      then close_incident t st.current_incident_id
      else pure (no_edge st.current_incident_id)

  -- the loop over `t.Errors`
  unfoldable pub log_errors : ℕ → List CheckError → Exec SiteDb (Unit {0})
  log_errors ts [] = pure tt
  log_errors ts (ce ∷ ces) = update (λ db. (ok tt, insert_error ts ce db)) >> log_errors ts ces

  -- `RecordTick`
  unfoldable pub record_tick : Tick → Exec SiteDb Transition
  unfolding reconcile log_errors save_state
  record_tick t = transaction do
    update (λ db. (ok tt, insert_result t db))
    st ← update load_state
    e ← reconcile t st
    log_errors t.ts t.errors
    update (λ db. (ok tt, save_state t (fails_after t st) e.incident db))
    pure (transition t st e)
