-- ===== src/Db/Tests.antt =====
-- Two migrations, of which the second is interrupted.
use uptime_monitor_api.Base.{arith, ◌≡◌, refl, none, some, List, [], ◌∷◌}
use uptime_monitor_api.Db.{Faults, plain, ◌>>=◌}
use uptime_monitor_api.Db.Runs.{Runs}
use uptime_monitor_api.Db.Migrations.{Migration, Schema, apply_migrations}
use uptime_monitor_api.Db.Migrations.Resume.{complete, apply_migrations-resumes}

abbrev site_history : List Migration
site_history =
    record { version = 1; stmts = "CREATE TABLE check_results" ∷ "CREATE TABLE site_state" ∷ [] }
    ∷ record { version = 2; stmts = "ALTER TABLE site_state" ∷ [] }
    ∷ []

abbrev new_schema : Schema
new_schema = record { user_version = 0; ran = [] }

-- The eighth statement is the ALTER TABLE of the second migration.
abbrev disk_full : Faults
disk_full = none ∷ none ∷ none ∷ none ∷ none ∷ none ∷ none ∷ some (plain "disk full") ∷ []

stopped_at_one : (apply_migrations site_history new_schema disk_full).1.user_version ≡ 1
unfolding apply_migrations ◌>>=◌
stopped_at_one = refl

apply_migrations-resumes_example :
    Runs
      (apply_migrations site_history)
      (apply_migrations site_history new_schema disk_full).1
      tt
      (complete 0 site_history new_schema)
apply_migrations-resumes_example =
    apply_migrations-resumes site_history new_schema disk_full (omega arith, (omega arith, tt))
