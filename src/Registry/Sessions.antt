-- ===== src/Registry/Sessions.antt =====
-- internal/storage/session.go: the login sessions.
use uptime_monitor_api.Base.{
  ℕ, not, Option, none, some, List, [], ◌∷◌, ◌++◌, String, ◌==◌, leb, ltb, if◌then◌else◌, length,
  any, find, filter, ◌-◌,
}
use uptime_monitor_api.Base.Text.{str_eq}
use uptime_monitor_api.Db.{
  Exec, Result, ok, err, session_not_found, pure, raise, ◌>>=◌, ◌>>◌, update, attempt,
}
use uptime_monitor_api.Registry.Tables.{
  Session, RegistryDb, primary_key_violation, foreign_key_violation,
}

abbrev pub session_with_id : String → RegistryDb → Option Session
session_with_id id db = find (λ s. str_eq s.id id) db.sessions

abbrev pub insert_session : String → ℕ → ℕ → ℕ → RegistryDb → Result (Unit {0}) × RegistryDb
insert_session id user_id expires_at now db =
    if any (λ s. str_eq s.id id) db.sessions
    then (err primary_key_violation, db)
    else if any (λ u. u.id == user_id) db.admin_users
    then (
      ok tt,
      record db {
        sessions =
            db.sessions
            ++ record {
              id = id;
              user_id = user_id;
              created_at = now;
              expires_at = expires_at;
              last_seen_at = now;
            }
              ∷ [];
      },
    )
    else (err foreign_key_violation, db)

-- `CreateSession`
unfoldable pub create_session : String → ℕ → ℕ → ℕ → Exec RegistryDb (Unit {0})
create_session id user_id expires_at now = update (insert_session id user_id expires_at now)

abbrev pub drop_session : String → RegistryDb → RegistryDb
drop_session id db = record db { sessions = filter (λ s. not (str_eq s.id id)) db.sessions }

-- `DeleteSession`
unfoldable pub delete_session : String → Exec RegistryDb (Unit {0})
delete_session id = update (λ db. (ok tt, drop_session id db))

abbrev pub found_session : Option Session → RegistryDb → Result Session × RegistryDb
found_session none db = (err session_not_found, db)
found_session (some s) db = (ok s, db)

-- `LookupSession`: an expired row is deleted (at best) and reported as not found.
unfoldable pub lookup_session : String → ℕ → Exec RegistryDb Session
unfolding delete_session
lookup_session id now = do
  s ← update (λ db. found_session (session_with_id id db) db)
  if leb s.expires_at now then attempt (delete_session id) >> raise session_not_found else pure s

abbrev pub touch : String → ℕ → ℕ → List Session → List Session
touch id expires_at now [] = []
touch id expires_at now (s ∷ ss) =
    (if str_eq s.id id then record s { last_seen_at = now; expires_at = expires_at } else s)
    ∷ touch id expires_at now ss

-- `TouchSession`
unfoldable pub touch_session : String → ℕ → ℕ → Exec RegistryDb (Unit {0})
touch_session id expires_at now =
    update (λ db. (ok tt, record db { sessions = touch id expires_at now db.sessions }))

abbrev pub purged : ℕ → RegistryDb → RegistryDb
purged now db = record db { sessions = filter (λ s. ltb now s.expires_at) db.sessions }

-- `PurgeExpiredSessions`; the answer is the number of rows that went.
unfoldable pub purge_expired_sessions : ℕ → Exec RegistryDb ℕ
purge_expired_sessions now =
    update (λ db. (ok (length db.sessions - length (purged now db).sessions), purged now db))
