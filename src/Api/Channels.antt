-- ===== src/Api/Channels.antt =====
-- internal/api/alerts.go: the handlers of the alert channels. What encoding/json makes of a body and
-- net/mail of an address are arguments.
use uptime_monitor_api.Base.{
  ℕ, zero, suc, Bool, true, not, Option, none, some, List, String, if◌then◌else◌,
}
use uptime_monitor_api.Base.Int.{ℤ, pos, negsuc}
use uptime_monitor_api.Base.Text.{str_eq, is_empty, Unicode, trim_space, ◌⧺◌}
use uptime_monitor_api.Db.{
  Exec, Error, error_text, Result, ok, err, Sqlite, pure, ◌>>=◌, attempt_result,
}
use uptime_monitor_api.Registry.Tables.{AlertChannel}
use uptime_monitor_api.Registry.Channels.{
  list_alert_channels, get_alert_channel, create_alert_channel, update_alert_channel,
  delete_alert_channel,
}
use uptime_monitor_api.Api.{
  Server, Reply, Body, unreadable, invalid, decoded, error_reply, json_reply, no_content,
  alert_error, failed, in_registry, one_channel, all_channels, test_sent,
}

-- `pathID`, after strconv
unfoldable pub path_id : Option ℤ → Option ℕ
path_id none = none
path_id (some (pos zero)) = none
path_id (some (pos (suc n))) = some (suc n)
path_id (some (negsuc n)) = none

-- `channelInput`
pub record ChannelInput : Type 0 where
  pub name : String
  pub type : String
  pub target : String
  pub enabled : Option Bool

abbrev pub enabled_or : Bool → Option Bool → Bool
enabled_or b none = b
enabled_or b (some e) = e

abbrev pub listed_channels : Result (List AlertChannel) → Reply
listed_channels (ok l) = json_reply 200 (all_channels l)
listed_channels (err e) = failed e

-- `handleListChannels`
unfoldable pub handle_list_channels : Exec Server Reply
handle_list_channels =
    attempt_result (in_registry list_alert_channels) >>= λ r. pure (listed_channels r)

abbrev pub bad_channel_id : Reply
bad_channel_id = error_reply 400 "invalid channel id"

abbrev pub dropped : Result (Unit {0}) → Reply
dropped (ok _) = no_content
dropped (err e) = alert_error e

abbrev pub delete_channel_at : Option ℕ → Exec Server Reply
delete_channel_at none = pure bad_channel_id
delete_channel_at (some id) =
    attempt_result (in_registry (delete_alert_channel id)) >>= λ r. pure (dropped r)

-- `handleDeleteChannel`
unfoldable pub handle_delete_channel : Option ℤ → Exec Server Reply
unfolding path_id
handle_delete_channel raw = delete_channel_at (path_id raw)

module _ (u : Unicode) (is_address : String → Bool) (sql : Sqlite) (now : ℕ) where
  abbrev pub trimmed : ChannelInput → ChannelInput
  unfolding trim_space
  trimmed i =
      let type = trim_space u i.type in
      record i {
        name = trim_space u i.name;
        target = trim_space u i.target;
        type = if is_empty type then "email" else type;
      }

  abbrev pub checked : ChannelInput → Result ChannelInput
  checked i =
      if not (str_eq i.type "email")
      then err (Error.plain "type must be \"email\"")
      else if is_empty i.name
      then err (Error.plain "name is required")
      else if not (is_address i.target)
      then err (Error.plain "target must be a valid email address")
      else ok i

  -- `decodeChannel`; an error is the message of the reply.
  unfoldable pub decode_channel : Body ChannelInput → Result ChannelInput
  unfolding trimmed
  decode_channel unreadable = err (Error.plain "request body too large or unreadable")
  decode_channel (invalid e) = err (Error.plain ("invalid JSON: " ⧺ e))
  decode_channel (decoded i) = checked (trimmed i)

  abbrev pub bad_request : Error → Reply
  bad_request e = error_reply 400 (error_text e)

  abbrev pub new_channel : ChannelInput → AlertChannel
  new_channel i = record {
    id = 0;
    name = i.name;
    type = i.type;
    target = i.target;
    enabled = enabled_or true i.enabled;
    created_at = 0;
    updated_at = 0;
  }

  abbrev pub created_channel : Result AlertChannel → Reply
  created_channel (ok ch) = json_reply 201 (one_channel ch)
  created_channel (err e) = failed e

  abbrev pub create_channel : Result ChannelInput → Exec Server Reply
  create_channel (err e) = pure (bad_request e)
  create_channel (ok i) =
      attempt_result (in_registry (create_alert_channel sql (new_channel i) now)) >>= λ r.
      pure (created_channel r)

  -- `handleCreateChannel`
  unfoldable pub handle_create_channel : Body ChannelInput → Exec Server Reply
  unfolding decode_channel
  handle_create_channel body = create_channel (decode_channel body)

  abbrev pub changed_channel : AlertChannel → ChannelInput → AlertChannel
  changed_channel ch i = record ch {
    name = i.name;
    type = i.type;
    target = i.target;
    enabled = enabled_or ch.enabled i.enabled;
  }

  abbrev pub updated_channel : AlertChannel → Result (Unit {0}) → Reply
  updated_channel ch (ok _) = json_reply 200 (one_channel ch)
  updated_channel ch (err e) = alert_error e

  abbrev pub update_channel : AlertChannel → Result ChannelInput → Exec Server Reply
  update_channel ch (err e) = pure (bad_request e)
  update_channel ch (ok i) =
      attempt_result (in_registry (update_alert_channel (changed_channel ch i) now)) >>= λ r.
      pure (updated_channel (changed_channel ch i) r)

  abbrev pub update_found : Body ChannelInput → Result AlertChannel → Exec Server Reply
  update_found body (err e) = pure (alert_error e)
  update_found body (ok ch) = update_channel ch (decode_channel body)

  abbrev pub update_channel_at : Body ChannelInput → Option ℕ → Exec Server Reply
  update_channel_at body none = pure bad_channel_id
  update_channel_at body (some id) =
      attempt_result (in_registry (get_alert_channel id)) >>= update_found body

  -- `handleUpdateChannel`
  unfoldable pub handle_update_channel : Option ℤ → Body ChannelInput → Exec Server Reply
  unfolding decode_channel path_id
  handle_update_channel raw body = update_channel_at body (path_id raw)

-- What the sender answers to the test message for a target; there may be no sender.
abbrev pub Sender : Type 0
Sender = Option (String → Option String)

abbrev pub test_reply : String → Option String → Reply
test_reply target none = json_reply 200 (test_sent target)
test_reply target (some e) = error_reply 502 ("send failed: " ⧺ e)

abbrev pub test_found : Sender → Result AlertChannel → Reply
test_found sender (err e) = alert_error e
test_found none (ok ch) =
    error_reply 503 "no mail transport configured; set UPTIME_SMTP_HOST and UPTIME_SMTP_FROM"
test_found (some send) (ok ch) = test_reply ch.target (send ch.target)

abbrev pub test_channel_at : Sender → Option ℕ → Exec Server Reply
test_channel_at sender none = pure bad_channel_id
test_channel_at sender (some id) =
    attempt_result (in_registry (get_alert_channel id)) >>= λ r. pure (test_found sender r)

-- `handleTestChannel`
unfoldable pub handle_test_channel : Sender → Option ℤ → Exec Server Reply
unfolding path_id
handle_test_channel sender raw = test_channel_at sender (path_id raw)
