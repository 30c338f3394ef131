-- ===== src/Db/Migrations.antt =====
-- internal/storage/migrate.go: `applyMigrations`. The schema is the log of the statements that ran.
pub mod Resume
use uptime_monitor_api.Base.{ℕ, List, [], ◌∷◌, ◌++◌, String, leb, if◌then◌else◌}
use uptime_monitor_api.Db.{Exec, ok, pure, ◌>>=◌, ◌>>◌, query, update, transaction}

pub record Migration : Type 0 where
  pub version : ℕ
  pub stmts : List String

-- `PRAGMA user_version`, and the statements that have run.
pub record Schema : Type 0 where
  pub user_version : ℕ
  pub ran : List String

abbrev pub logged : String → Schema → Schema
logged stmt db = record db { ran = db.ran ++ stmt ∷ [] }

unfoldable pub run_stmts : List String → Exec Schema (Unit {0})
run_stmts [] = pure tt
run_stmts (s ∷ ss) = update (λ db. (ok tt, logged s db)) >> run_stmts ss

-- One migration, and the new version with it, in one transaction.
unfoldable pub migrate : Migration → Exec Schema (Unit {0})
unfolding run_stmts
migrate m =
    transaction do run_stmts m.stmts; update (λ db. (ok tt, record db { user_version = m.version }))

-- The loop, with the version that was read before it.
unfoldable pub apply_from : ℕ → List Migration → Exec Schema (Unit {0})
unfolding migrate
apply_from current [] = pure tt
apply_from current (m ∷ ms) =
    let rest = apply_from current ms in if leb m.version current then rest else migrate m >> rest

-- `applyMigrations`
unfoldable pub apply_migrations : List Migration → Exec Schema (Unit {0})
unfolding apply_from
apply_migrations ms = query (λ db. db.user_version) >>= λ current. apply_from current ms
