-- ===== src/Registry/Tables.antt =====
-- The tables of registry.db (registryMigrations in internal/storage/migrate.go).
use uptime_monitor_api.Base.{ℕ, Bool, Option, List, [], ◌∷◌, String, leb, if◌then◌else◌}
use uptime_monitor_api.Base.Int.{ℤ}
use uptime_monitor_api.Db.{Error, sqlite, sqlite_constraint_unique, sqlite_constraint_primary_key}

pub record SiteRow : Type 0 where
  pub id : String
  pub name : String
  pub url : String
  pub interval_seconds : ℤ
  pub slow_interval_seconds : ℤ
  pub enabled : ℕ
  pub checks_json : String
  pub created_at : ℕ
  pub updated_at : ℕ
  pub api_key_hash : Option String

pub record AdminUser : Type 0 where
  pub id : ℕ
  pub username : String
  pub password_hash : String
  pub created_at : ℕ
  pub updated_at : ℕ

pub record Session : Type 0 where
  pub id : String
  pub user_id : ℕ
  pub created_at : ℕ
  pub expires_at : ℕ
  pub last_seen_at : ℕ

pub record AlertChannel : Type 0 where
  pub id : ℕ
  pub name : String
  pub type : String
  pub target : String
  pub enabled : Bool
  pub created_at : ℕ
  pub updated_at : ℕ

-- `site_id` NULL means every site. `confirm_after` is a Go int.
pub record AlertRule : Type 0 where
  pub id : ℕ
  pub site_id : Option String
  pub channel_id : ℕ
  pub kind : String
  pub enabled : Bool
  pub confirm_after : ℤ
  pub created_at : ℕ
  pub updated_at : ℕ

pub record AlertDelivery : Type 0 where
  pub id : ℕ
  pub dedupe_key : String
  pub site_id : String
  pub kind : String
  pub channel_id : ℕ
  pub incident_id : Option ℕ
  pub subject : String
  pub status : String
  pub attempts : ℕ
  pub error : Option String
  pub created_at : ℕ
  pub sent_at : Option ℕ

pub record RegistryDb : Type 0 where
  pub sites : List SiteRow
  pub admin_users : List AdminUser
  pub sessions : List Session
  pub alert_channels : List AlertChannel
  pub alert_rules : List AlertRule
  pub alert_deliveries : List AlertDelivery

abbrev pub empty_registry : RegistryDb
empty_registry = record {
  sites = [];
  admin_users = [];
  sessions = [];
  alert_channels = [];
  alert_rules = [];
  alert_deliveries = [];
}

-- The constraint violations that the schema declares, as SQLite reports them.
abbrev pub unique_violation : Error
unique_violation = sqlite sqlite_constraint_unique "UNIQUE constraint failed"

abbrev pub primary_key_violation : Error
primary_key_violation = sqlite sqlite_constraint_primary_key "UNIQUE constraint failed"

abbrev pub foreign_key_violation : Error
foreign_key_violation = sqlite 787 "FOREIGN KEY constraint failed"

-- ORDER BY id, by insertion.
insert_by_id {ℓ} : {A : Type ℓ} → (A → ℕ) → A → List A → List A
insert_by_id id a [] = a ∷ []
insert_by_id id a (b ∷ bs) =
    let rest = b ∷ insert_by_id id a bs in if leb (id a) (id b) then a ∷ b ∷ bs else rest

unfoldable pub order_by_id {ℓ} : {A : Type ℓ} → (A → ℕ) → List A → List A
unfolding insert_by_id
order_by_id id [] = []
order_by_id id (a ∷ rest) = insert_by_id id a (order_by_id id rest)
