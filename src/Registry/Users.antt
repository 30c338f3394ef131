-- ===== src/Registry/Users.antt =====
-- internal/storage/admin.go: the admin accounts.
use uptime_monitor_api.Base.{
  ℕ, not, Option, none, some, List, [], ◌∷◌, ◌++◌, map, String, ◌==◌, if◌then◌else◌, length, any,
  find, filter,
}
use uptime_monitor_api.Base.Text.{str_eq, Unicode, trim_space, to_lower}
use uptime_monitor_api.Db.{
  Exec, Result, ok, err, user_not_found, ◌>>◌, query, update, transaction, Sqlite,
}
use uptime_monitor_api.Registry.Tables.{AdminUser, RegistryDb, unique_violation}

-- `normaliseUsername`
unfoldable pub normalise_username : Unicode → String → String
unfolding trim_space to_lower
normalise_username u name = to_lower u (trim_space u name)

unfoldable pub admin_user_count : Exec RegistryDb ℕ
admin_user_count = query (λ db. length db.admin_users)

abbrev pub found_user : Option AdminUser → RegistryDb → Result AdminUser × RegistryDb
found_user none db = (err user_not_found, db)
found_user (some u) db = (ok u, db)

abbrev pub user_named : String → RegistryDb → Option AdminUser
user_named name db = find (λ u. str_eq u.username name) db.admin_users

abbrev pub user_with_id : ℕ → RegistryDb → Option AdminUser
user_with_id id db = find (λ u. u.id == id) db.admin_users

-- `AdminUserByName`
unfoldable pub admin_user_by_name : Unicode → String → Exec RegistryDb AdminUser
unfolding normalise_username
admin_user_by_name u name = update (λ db. found_user (user_named (normalise_username u name) db) db)

-- `AdminUserByID`
unfoldable pub admin_user_by_id : ℕ → Exec RegistryDb AdminUser
admin_user_by_id id = update (λ db. found_user (user_with_id id db) db)

module _ (sql : Sqlite) where
  open sql use {new_rowid}

  abbrev pub insert_user : String → String → ℕ → RegistryDb → Result ℕ × RegistryDb
  insert_user name hash now db =
      let id = new_rowid (map (λ u. u.id) db.admin_users) in
      if any (λ u. str_eq u.username name) db.admin_users then (err unique_violation, db) else (
        ok id,
        record db {
          admin_users =
              db.admin_users
              ++ record {
                id = id;
                username = name;
                password_hash = hash;
                created_at = now;
                updated_at = now;
              }
                ∷ [];
        },
      )

  -- `CreateAdminUser`; `username` is UNIQUE.
  unfoldable pub create_admin_user : Unicode → String → String → ℕ → Exec RegistryDb ℕ
  unfolding normalise_username
  create_admin_user u name hash now = update (insert_user (normalise_username u name) hash now)

abbrev pub set_hash : ℕ → String → ℕ → List AdminUser → List AdminUser
set_hash id hash now [] = []
set_hash id hash now (u ∷ us) =
    (if u.id == id then record u { password_hash = hash; updated_at = now } else u)
    ∷ set_hash id hash now us

-- The UPDATE, with the test of `RowsAffected`.
abbrev pub update_hash : ℕ → String → ℕ → RegistryDb → Result (Unit {0}) × RegistryDb
update_hash id hash now db =
    if any (λ u. u.id == id) db.admin_users
    then (ok tt, record db { admin_users = set_hash id hash now db.admin_users })
    else (err user_not_found, db)

abbrev pub drop_sessions_of : ℕ → RegistryDb → RegistryDb
drop_sessions_of id db = record db { sessions = filter (λ s. not (s.user_id == id)) db.sessions }

-- `SetAdminPassword`: the hash is replaced and every session of the account is revoked, or neither.
unfoldable pub set_admin_password : ℕ → String → ℕ → Exec RegistryDb (Unit {0})
set_admin_password id hash now =
    transaction do update (update_hash id hash now); update (λ db. (ok tt, drop_sessions_of id db))
