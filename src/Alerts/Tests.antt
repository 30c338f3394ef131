-- ===== src/Alerts/Tests.antt =====
-- The dispatcher's theorems at a concrete outage.
use uptime_monitor_api.Base.{◌≡◌, refl, ◌≤◌, ◌*◌, ℕ, true, false, some, List, [], ◌∷◌, length}
use uptime_monitor_api.Db.{Faults, ◌>>=◌}
use uptime_monitor_api.Db.Rowids.{counting}
use uptime_monitor_api.Registry.Deliveries.{claim_delivery, mark_delivery_sent}
use uptime_monitor_api.Alerts.Message.{Event, site_down, render, kinds_for, down_key}
use uptime_monitor_api.Alerts.Dispatcher.{
  World, Attempt, on_registry, apply_rule, deliver, deliver_from, send,
}
use uptime_monitor_api.Registry.Rules.{rules_for}
use uptime_monitor_api.Registry.Channels.{get_alert_channel}
use uptime_monitor_api.Registry.Tables.{order_by_id}
use uptime_monitor_api.Base.Decimal.{decimal}
use uptime_monitor_api.Base.Int.{pos}
use uptime_monitor_api.Site.Tables.{SiteState, SiteDb, fresh_state, empty_site}
use uptime_monitor_api.Site.Tick.{Tick, Transition, record_tick}
use uptime_monitor_api.Alerts.Ongoing.{event_of, Failed, apply_rule-ongoing}
use uptime_monitor_api.Registry.Claims.{claimed}
use uptime_monitor_api.Base.Text.{join}
use uptime_monitor_api.Alerts.Bounds.{ledger_size}
use uptime_monitor_api.Alerts.Smtp.{sanitise_header}
use uptime_monitor_api.Alerts.Smtp.Header.{has_break, sanitise_header-unbroken}
use uptime_monitor_api.Alerts.Smtp.{SmtpConfig, build_message}
use uptime_monitor_api.Alerts.Smtp.Exchange.{new_wire, send_mail}
use uptime_monitor_api.Alerts.Smtp.Exchange.Stages.{session}
use uptime_monitor_api.Alerts.Smtp.Exchange.Order.{InOrder, send_mail-InOrder}
use uptime_monitor_api.Alerts.Mails.{handle_all, mails-le-claims}
use uptime_monitor_api.Alerts.Quiet.{unannounced, apply_rule-Suppressed}
use uptime_monitor_api.Samples.{
  ascii, plain_times, registry, example_site, second_failure, ops_channel, down_rule,
}

abbrev failing : Attempt
failing = record { failure = some "connection refused"; stopping = false }

-- The first attempt fails.
abbrev world : World
world = record { registry = registry; outbox = []; attempts = failing ∷ [] }

abbrev events : List (Event × ℕ × Faults)
events = (second_failure, 1000000000000, []) ∷ (second_failure, 1060000000000, []) ∷ []

-- The event is announced once, with one retry, although it comes twice.
two_mails : length (handle_all counting plain_times 2 events world).outbox ≡ 2
unfolding handle_all ◌>>=◌ on_registry rules_for apply_rule get_alert_channel render claim_delivery
    deliver deliver_from send mark_delivery_sent kinds_for order_by_id decimal
two_mails = refl

mails-le-claims_example :
    let w = handle_all counting plain_times 2 events world in length w.outbox ≤ 3 * ledger_size w
mails-le-claims_example = mails-le-claims counting plain_times 2 events world refl

apply_rule-Suppressed_example :
    (apply_rule counting plain_times 2 1000000000000 second_failure "site_recovered" down_rule world
      []).1
    ≡ world
apply_rule-Suppressed_example =
    apply_rule-Suppressed counting plain_times 2 1000000000000 second_failure "site_recovered"
      down_rule ops_channel world [] refl (unannounced refl)

abbrev failed_at : ℕ → Tick
failed_at ts = record {
  ts = ts;
  up = false;
  status_code = 500;
  response_ms = 10;
  failed_checks = "http" ∷ [];
  error = "unexpected status 500";
  errors = [];
  ssl_checked = false;
  ssl_expires_at = pos 0;
}

abbrev down_since : ℕ → SiteState
down_since incident = record (fresh_state 1) {
  current_up = some 0;
  current_incident_id = some incident;
  consecutive_failures = 1;
}

-- What both ticks tell: the second failure in a row, and of no incident.
abbrev told : Transition
told = record {
  incident_opened = false;
  incident_resolved = false;
  incident_id = 0;
  consecutive_failures = 2;
  up = false;
  error = "unexpected status 500";
  ssl_expires_at = pos 0;
  ssl_checked = false;
}

abbrev down_db : ℕ → SiteDb
down_db incident = record empty_site { site_state = some (down_since incident) }

second_tick-Failed : (incident ts : ℕ) → Failed counting (failed_at ts) told
unfolding record_tick ◌>>=◌ join
second_tick-Failed incident ts = record {
  st = down_since incident;
  db = down_db incident;
  fs = [];
  left = (record_tick counting (failed_at ts) (down_db incident) []).1;
  rest = [];
  down = refl;
  has_state = refl;
  was_down = refl;
  ran = refl;
}

-- The alert of incident 1 is on the ledger.
abbrev announced_world : World
announced_world = record world {
  registry =
      claimed counting
        (record {
          dedupe_key = down_key (event_of example_site 70 told) ops_channel;
          site_id = "example";
          kind = "site_down";
          channel_id = ops_channel.id;
          incident_id = some 1;
          subject = "[DOWN] Example";
        })
        1000 registry;
}

-- The second ticks of incident 1 and of incident 2.
apply_rule-ongoing_example :
    (apply_rule counting plain_times 2 900000000000
      (event_of example_site 900 told)
      site_down
      down_rule
      announced_world
      []).1
    ≡ announced_world
unfolding decimal
apply_rule-ongoing_example =
    apply_rule-ongoing counting plain_times 2 900000000000 example_site down_rule ops_channel 70 900
      (failed_at 70) (failed_at 900) told told announced_world [] (second_tick-Failed 1 70)
      (second_tick-Failed 2 900) refl refl

-- A name that would add a header of its own.
sanitise_header-unbroken_example : has_break (sanitise_header ascii "[DOWN] a\r\nBcc: b@c") ≡ false
sanitise_header-unbroken_example = sanitise_header-unbroken ascii "[DOWN] a\r\nBcc: b@c"

abbrev mail_server : SmtpConfig
mail_server = record {
  host = "mail.example.com";
  port = pos 587;
  username = "alerts";
  password = "secret";
  sender = "alerts@example.com";
  insecure_skip_verify = false;
}

send_mail-InOrder_example :
    let out =
      send_mail ascii mail_server "Mon" "ops@example.com" "[DOWN]" "Down." (new_wire true) [] in
    InOrder
      (session mail_server "ops@example.com"
        (build_message ascii "Mon" "alerts@example.com" "ops@example.com" "[DOWN]" "Down."))
      out.0
      out.1
send_mail-InOrder_example =
    send_mail-InOrder ascii mail_server "Mon" "ops@example.com" "[DOWN]" "Down." true []
