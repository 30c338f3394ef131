-- ===== src/Site/Tables.antt =====
-- The tables of a per-site database (siteMigrations in internal/storage/migrate.go). A NULL column
-- is `none`; a boolean column holds 0 or 1. Unix times are natural numbers, except the expiry of a
-- certificate, which may be any date.
use uptime_monitor_api.Base.{ℕ, Option, none, some, List, [], map, String, Bool, true, false}
use uptime_monitor_api.Base.Int.{ℤ}
use uptime_monitor_api.Db.{Exec, update, ok}

pub record ResultRow : Type 0 where
  pub id : ℕ
  pub ts : ℕ
  pub up : ℕ
  pub status_code : ℕ
  pub response_ms : ℕ
  pub failed_checks : Option String
  pub error : Option String

pub record IncidentRow : Type 0 where
  pub id : ℕ
  pub started_at : ℕ
  pub resolved_at : Option ℕ
  pub cause : Option String

pub record ErrorRow : Type 0 where
  pub id : ℕ
  pub ts : ℕ
  pub check_type : String
  pub message : String

pub record SiteState : Type 0 where
  pub monitoring_started_at : Option ℕ
  pub last_check_ts : Option ℕ
  pub current_up : Option ℕ
  pub current_incident_id : Option ℕ
  pub ssl_expires_at : Option ℤ
  pub ssl_last_checked : Option ℕ
  pub consecutive_failures : ℕ

-- `site_state` has at most one row, by `CHECK (id = 1)`.
pub record SiteDb : Type 0 where
  pub check_results : List ResultRow
  pub incidents : List IncidentRow
  pub errors : List ErrorRow
  pub site_state : Option SiteState

-- The tables that the migrations leave.
abbrev pub empty_site : SiteDb
empty_site = record { check_results = []; incidents = []; errors = []; site_state = none }

abbrev pub result_ids : List ResultRow → List ℕ
result_ids = map (λ r. r.id)

abbrev pub incident_ids : List IncidentRow → List ℕ
incident_ids = map (λ r. r.id)

abbrev pub error_ids : List ErrorRow → List ℕ
error_ids = map (λ r. r.id)

abbrev pub bool_to_int : Bool → ℕ
bool_to_int true = 1
bool_to_int false = 0

abbrev pub fresh_state : ℕ → SiteState
fresh_state now = record {
  monitoring_started_at = some now;
  last_check_ts = none;
  current_up = none;
  current_incident_id = none;
  ssl_expires_at = none;
  ssl_last_checked = none;
  consecutive_failures = 0;
}

-- `INSERT INTO site_state … ON CONFLICT(id) DO NOTHING`
abbrev pub init_state : ℕ → SiteDb → SiteDb
init_state now db = elim db.site_state [
  | some st ↦ db
  | none ↦ record db { site_state = some (fresh_state now) }
]

-- `openSiteStore`, once the migrations have run: the singleton row is there afterwards.
unfoldable pub open_site_store : ℕ → Exec SiteDb (Unit {0})
open_site_store now = update (λ db. (ok tt, init_state now db))
