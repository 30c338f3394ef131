-- ===== src/Registry/Rules.antt =====
-- internal/storage/alerts.go, rules: what triggers an alert, and on which channel.
use uptime_monitor_api.Base.{
  ℕ, Bool, true, not, ◌&&◌, Option, none, some, List, [], ◌∷◌, ◌++◌, map, String, ◌==◌,
  if◌then◌else◌, any, find, filter,
}
use uptime_monitor_api.Base.Text.{str_eq}
use uptime_monitor_api.Db.{Exec, Result, ok, err, alert_not_found, query, update, Sqlite}
use uptime_monitor_api.Registry.Tables.{AlertRule, RegistryDb, order_by_id, foreign_key_violation}

-- `ListAlertRules`
unfoldable pub list_alert_rules : Exec RegistryDb (List AlertRule)
unfolding order_by_id
list_alert_rules = query (λ db. order_by_id (λ r. r.id) db.alert_rules)

-- `r.site_id IS NULL OR r.site_id = ?`
abbrev pub covers : Option String → String → Bool
covers none site_id = true
covers (some s) site_id = str_eq s site_id

-- The JOIN: the rule's channel exists and is enabled.
abbrev pub on_enabled_channel : RegistryDb → AlertRule → Bool
on_enabled_channel db r = any (λ c. c.id == r.channel_id && c.enabled) db.alert_channels

abbrev pub applies : String → String → RegistryDb → AlertRule → Bool
applies site_id kind db r =
    str_eq r.kind kind && r.enabled && on_enabled_channel db r && covers r.site_id site_id

-- `RulesFor`
unfoldable pub rules_for : String → String → Exec RegistryDb (List AlertRule)
unfolding order_by_id
rules_for site_id kind =
    query (λ db. order_by_id (λ r. r.id) (filter (applies site_id kind db) db.alert_rules))

abbrev pub found_rule : Option AlertRule → RegistryDb → Result AlertRule × RegistryDb
found_rule none db = (err alert_not_found, db)
found_rule (some r) db = (ok r, db)

-- `GetAlertRule`
unfoldable pub get_alert_rule : ℕ → Exec RegistryDb AlertRule
get_alert_rule id = update (λ db. found_rule (find (λ r. r.id == id) db.alert_rules) db)

abbrev pub channel_exists : ℕ → RegistryDb → Bool
channel_exists id db = any (λ c. c.id == id) db.alert_channels

module _ (sql : Sqlite) where
  open sql use {new_rowid}

  abbrev pub insert_rule : AlertRule → ℕ → RegistryDb → Result AlertRule × RegistryDb
  insert_rule r now db =
      let r' = record r {
        id = new_rowid (map (λ r''. r''.id) db.alert_rules);
        created_at = now;
        updated_at = now;
      } in
      if channel_exists r.channel_id db
      then (ok r', record db { alert_rules = db.alert_rules ++ r' ∷ [] })
      else (err foreign_key_violation, db)

  -- `CreateAlertRule`
  unfoldable pub create_alert_rule : AlertRule → ℕ → Exec RegistryDb AlertRule
  create_alert_rule r now = update (insert_rule r now)

abbrev pub set_rule : AlertRule → ℕ → List AlertRule → List AlertRule
set_rule a now [] = []
set_rule a now (r ∷ rs) =
    (if r.id == a.id
      then record r {
        site_id = a.site_id;
        channel_id = a.channel_id;
        kind = a.kind;
        enabled = a.enabled;
        confirm_after = a.confirm_after;
        updated_at = now;
      }
      else r)
    ∷ set_rule a now rs

-- `UpdateAlertRule`
unfoldable pub update_alert_rule : AlertRule → ℕ → Exec RegistryDb (Unit {0})
update_alert_rule a now = update λ db.
    if any (λ r. r.id == a.id) db.alert_rules
    then (if channel_exists a.channel_id db
        then (ok tt, record db { alert_rules = set_rule a now db.alert_rules })
        else (err foreign_key_violation, db))
    else (err alert_not_found, db)

-- `DeleteAlertRule`
unfoldable pub delete_alert_rule : ℕ → Exec RegistryDb (Unit {0})
delete_alert_rule id = update λ db.
    if any (λ r. r.id == id) db.alert_rules
    then (ok tt, record db { alert_rules = filter (λ r. not (r.id == id)) db.alert_rules })
    else (err alert_not_found, db)
