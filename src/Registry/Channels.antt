-- ===== src/Registry/Channels.antt =====
-- internal/storage/alerts.go, channels: where an alert goes.
use uptime_monitor_api.Base.{
  ℕ, Bool, not, Option, none, some, List, [], ◌∷◌, ◌++◌, map, ◌==◌, if◌then◌else◌, any, find,
  filter,
}
use uptime_monitor_api.Db.{Exec, Result, ok, err, alert_not_found, query, update, Sqlite}
use uptime_monitor_api.Registry.Tables.{AlertChannel, RegistryDb, order_by_id}

abbrev pub has_channel : ℕ → RegistryDb → Bool
has_channel id db = any (λ c. c.id == id) db.alert_channels

-- `ListAlertChannels`
unfoldable pub list_alert_channels : Exec RegistryDb (List AlertChannel)
unfolding order_by_id
list_alert_channels = query (λ db. order_by_id (λ c. c.id) db.alert_channels)

abbrev pub found_channel : Option AlertChannel → RegistryDb → Result AlertChannel × RegistryDb
found_channel none db = (err alert_not_found, db)
found_channel (some c) db = (ok c, db)

abbrev pub channel_with_id : ℕ → RegistryDb → Option AlertChannel
channel_with_id id db = find (λ c. c.id == id) db.alert_channels

-- `GetAlertChannel`
unfoldable pub get_alert_channel : ℕ → Exec RegistryDb AlertChannel
get_alert_channel id = update (λ db. found_channel (channel_with_id id db) db)

module _ (sql : Sqlite) where
  open sql use {new_rowid}

  abbrev pub insert_channel : AlertChannel → ℕ → RegistryDb → Result AlertChannel × RegistryDb
  insert_channel c now db =
      let row = record c {
        id = new_rowid (map (λ c'. c'.id) db.alert_channels);
        created_at = now;
        updated_at = now;
      } in
      (ok row, record db { alert_channels = db.alert_channels ++ row ∷ [] })

  -- `CreateAlertChannel`
  unfoldable pub create_alert_channel : AlertChannel → ℕ → Exec RegistryDb AlertChannel
  create_alert_channel c now = update (insert_channel c now)

abbrev pub set_channel : AlertChannel → ℕ → List AlertChannel → List AlertChannel
set_channel c now [] = []
set_channel c now (r ∷ rs) =
    (if r.id == c.id
      then record r {
        name = c.name;
        type = c.type;
        target = c.target;
        enabled = c.enabled;
        updated_at = now;
      }
      else r)
    ∷ set_channel c now rs

-- `UpdateAlertChannel`
unfoldable pub update_alert_channel : AlertChannel → ℕ → Exec RegistryDb (Unit {0})
update_alert_channel c now = update λ db.
    if has_channel c.id db
    then (ok tt, record db { alert_channels = set_channel c now db.alert_channels })
    else (err alert_not_found, db)

-- The rules of a channel go with it (ON DELETE CASCADE).
abbrev pub drop_channel : ℕ → RegistryDb → RegistryDb
drop_channel id db = record db {
  alert_channels = filter (λ c. not (c.id == id)) db.alert_channels;
  alert_rules = filter (λ r. not (r.channel_id == id)) db.alert_rules;
}

-- `DeleteAlertChannel`
unfoldable pub delete_alert_channel : ℕ → Exec RegistryDb (Unit {0})
delete_alert_channel id =
    update
      (λ db. if has_channel id db then (ok tt, drop_channel id db) else (err alert_not_found, db))
