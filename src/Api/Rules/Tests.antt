-- ===== src/Api/Rules/Tests.antt =====
-- Alert requests at a concrete server.
use uptime_monitor_api.Base.{ℕ, refl, All, none, some, List, [], ◌∷◌, String, true, Bool}
use uptime_monitor_api.Base.Int.{pos}
use uptime_monitor_api.Db.{Faults}
use uptime_monitor_api.Db.Rowids.{counting}
use uptime_monitor_api.Api.{decoded}
use uptime_monitor_api.Api.Rules.{valid_alert_kind}
use uptime_monitor_api.Api.Rules.Sound.{IsFit}
use uptime_monitor_api.Api.Rules.History.{
  AlertRequest, creates_rule, updates_rule, deletes_channel, serve_all, serve_all-IsFit,
}
use uptime_monitor_api.Samples.{ascii, server}

any_address : String → Bool
any_address s = true

-- A rule of too high a threshold is refused; the channel then takes its rules along.
abbrev requests : List (AlertRequest × ℕ × Faults)
requests =
    (
      creates_rule (
          decoded (record {
            site_id = some "";
            channel_id = 3;
            kind = "ssl_expiring";
            enabled = none;
            confirm_after = some (pos 3);
          })),
      20,
      [],
    )
    ∷ (
      updates_rule (some (pos 1)) (
          decoded (record {
            site_id = none;
            channel_id = 3;
            kind = "site_down";
            enabled = some true;
            confirm_after = some (pos 101);
          })),
      21,
      [],
    )
    ∷ (deletes_channel (some (pos 4)), 22, [])
    ∷ []

serve_all-IsFit_example :
    let t = serve_all ascii any_address counting requests server in
    All (IsFit t.registry.alert_channels) t.registry.alert_rules
unfolding valid_alert_kind
serve_all-IsFit_example =
    serve_all-IsFit ascii any_address counting requests server ((refl, refl, refl), tt)
