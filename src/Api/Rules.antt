-- ===== src/Api/Rules.antt =====
-- internal/api/alerts.go: the handlers of the alert rules and of the delivery log.
mod Tests
pub mod Sound
pub mod Laws
pub mod History
use uptime_monitor_api.Base.{
  ℕ, Bool, true, false, not, ◌||◌, Option, none, some, List, String, if◌then◌else◌,
}
use uptime_monitor_api.Base.Int.{ℤ, pos, ltb_ℤ}
use uptime_monitor_api.Base.Text.{str_eq, is_empty, ◌⧺◌}
use uptime_monitor_api.Db.{
  Exec, Error, error_text, Result, ok, err, Sqlite, pure, ◌>>=◌, attempt_option, attempt_result,
}
use uptime_monitor_api.Registry.Tables.{AlertChannel, AlertRule, AlertDelivery}
use uptime_monitor_api.Registry.Sites.{site_exists}
use uptime_monitor_api.Registry.Channels.{get_alert_channel}
use uptime_monitor_api.Registry.Rules.{
  list_alert_rules, get_alert_rule, create_alert_rule, update_alert_rule, delete_alert_rule,
}
use uptime_monitor_api.Registry.Deliveries.{list_alert_deliveries}
use uptime_monitor_api.Api.{
  Server, Reply, Body, unreadable, invalid, decoded, error_reply, json_reply, too_large,
  invalid_json, alert_error, failed, in_registry, one_rule, all_rules, deliveries,
}
use uptime_monitor_api.Api.Params.{limit_param}
use uptime_monitor_api.Api.Channels.{path_id, enabled_or, dropped}

-- `ruleInput`; a channel id that is not positive is none of any channel, and is 0 here.
pub record RuleInput : Type 0 where
  pub site_id : Option String
  pub channel_id : ℕ
  pub kind : String
  pub enabled : Option Bool
  pub confirm_after : Option ℤ

-- `ValidAlertKind`
unfoldable pub valid_alert_kind : String → Bool
valid_alert_kind k = str_eq k "site_down" || str_eq k "site_recovered" || str_eq k "ssl_expiring"

abbrev pub listed_rules : Result (List AlertRule) → Reply
listed_rules (ok l) = json_reply 200 (all_rules l)
listed_rules (err e) = failed e

-- `handleListRules`
unfoldable pub handle_list_rules : Exec Server Reply
handle_list_rules = attempt_result (in_registry list_alert_rules) >>= λ r. pure (listed_rules r)

abbrev pub bad_rule_id : Reply
bad_rule_id = error_reply 400 "invalid rule id"

-- A decoded rule, or the reply that refuses it.
pub data Decoded : Type 0 where
  accepted : RuleInput → Decoded
  refused : Reply → Decoded

abbrev pub bad : String → Exec Server Decoded
bad message = pure (refused (error_reply 400 message))

abbrev pub bad_confirm : Option ℤ → Bool
bad_confirm none = false
bad_confirm (some n) = ltb_ℤ n (pos 1) || ltb_ℤ (pos 100) n

abbrev pub confirmed : RuleInput → Exec Server Decoded
confirmed i =
    if bad_confirm i.confirm_after
    then bad "confirm_after must be between 1 and 100"
    else pure (accepted i)

abbrev pub with_site : RuleInput → Result Bool → Exec Server Decoded
with_site i (err e) = pure (refused (failed e))
with_site i (ok found) = if found then confirmed i else bad "site_id does not exist"

-- An empty site id and none both mean every site.
abbrev pub decode_site : RuleInput → Option String → Exec Server Decoded
decode_site i none = confirmed i
decode_site i (some id) =
    if is_empty id
    then confirmed (record i { site_id = none })
    else attempt_result (in_registry (site_exists id)) >>= with_site i

abbrev pub with_channel : RuleInput → Option AlertChannel → Exec Server Decoded
with_channel i none = bad "channel_id does not exist"
with_channel i (some ch) = decode_site i i.site_id

abbrev pub decode_input : RuleInput → Exec Server Decoded
decode_input i =
    if not (valid_alert_kind i.kind)
    then bad "kind must be one of site_down, site_recovered, ssl_expiring"
    else attempt_option (in_registry (get_alert_channel i.channel_id)) >>= with_channel i

-- `decodeRule`
unfoldable pub decode_rule : Body RuleInput → Exec Server Decoded
decode_rule unreadable = pure (refused too_large)
decode_rule (invalid e) = pure (refused (invalid_json e))
decode_rule (decoded i) = decode_input i

abbrev pub dropped_rule_at : Option ℕ → Exec Server Reply
dropped_rule_at none = pure bad_rule_id
dropped_rule_at (some id) =
    attempt_result (in_registry (delete_alert_rule id)) >>= λ r. pure (dropped r)

-- `handleDeleteRule`
unfoldable pub handle_delete_rule : Option ℤ → Exec Server Reply
unfolding path_id
handle_delete_rule raw = dropped_rule_at (path_id raw)

abbrev pub listed_deliveries : Result (List AlertDelivery) → Reply
listed_deliveries (ok l) = json_reply 200 (deliveries l)
listed_deliveries (err e) = failed e

-- `handleListDeliveries`
unfoldable pub handle_list_deliveries : String → Option ℤ → Exec Server Reply
unfolding limit_param
handle_list_deliveries site_id limit =
    attempt_result (in_registry (list_alert_deliveries site_id (pos (limit_param limit 100))))
    >>= λ r. pure (listed_deliveries r)

abbrev pub confirm_or : ℤ → Option ℤ → ℤ
confirm_or n none = n
confirm_or n (some m) = m

abbrev pub new_rule : RuleInput → AlertRule
new_rule i = record {
  id = 0;
  site_id = i.site_id;
  channel_id = i.channel_id;
  kind = i.kind;
  enabled = enabled_or true i.enabled;
  confirm_after = confirm_or (pos 2) i.confirm_after;
  created_at = 0;
  updated_at = 0;
}

abbrev pub changed_rule : AlertRule → RuleInput → AlertRule
changed_rule r i = record r {
  site_id = i.site_id;
  channel_id = i.channel_id;
  kind = i.kind;
  enabled = enabled_or r.enabled i.enabled;
  confirm_after = confirm_or r.confirm_after i.confirm_after;
}

module _ (sql : Sqlite) (now : ℕ) where
  abbrev pub created_rule : Result AlertRule → Reply
  created_rule (ok r) = json_reply 201 (one_rule r)
  created_rule (err e) = failed e

  abbrev pub create_rule : Decoded → Exec Server Reply
  create_rule (refused reply) = pure reply
  create_rule (accepted i) =
      attempt_result (in_registry (create_alert_rule sql (new_rule i) now)) >>= λ r.
      pure (created_rule r)

  -- `handleCreateRule`
  unfoldable pub handle_create_rule : Body RuleInput → Exec Server Reply
  unfolding decode_rule
  handle_create_rule body = decode_rule body >>= create_rule

  abbrev pub updated_rule : AlertRule → Result (Unit {0}) → Reply
  updated_rule r (ok _) = json_reply 200 (one_rule r)
  updated_rule r (err e) = alert_error e

  abbrev pub update_rule : AlertRule → Decoded → Exec Server Reply
  update_rule r (refused reply) = pure reply
  update_rule r (accepted i) =
      attempt_result (in_registry (update_alert_rule (changed_rule r i) now)) >>= λ o.
      pure (updated_rule (changed_rule r i) o)

  abbrev pub update_found : Body RuleInput → Result AlertRule → Exec Server Reply
  update_found body (err e) = pure (alert_error e)
  update_found body (ok r) = decode_rule body >>= update_rule r

  abbrev pub update_rule_at : Body RuleInput → Option ℕ → Exec Server Reply
  update_rule_at body none = pure bad_rule_id
  update_rule_at body (some id) =
      attempt_result (in_registry (get_alert_rule id)) >>= update_found body

  -- `handleUpdateRule`
  unfoldable pub handle_update_rule : Option ℤ → Body RuleInput → Exec Server Reply
  unfolding decode_rule path_id
  handle_update_rule raw body = update_rule_at body (path_id raw)
