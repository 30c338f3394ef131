-- ===== src/Api/Rules/History.antt =====
-- internal/api/alerts.go: the rules after any sequence of requests about channels and rules.
use uptime_monitor_api.Base.{ℕ, Bool, Option, List, [], ◌∷◌, String, All}
use uptime_monitor_api.Base.Int.{ℤ}
use uptime_monitor_api.Base.Text.{Unicode}
use uptime_monitor_api.Db.{Exec, Faults, Sqlite}
use uptime_monitor_api.Api.{Server, Reply, Body}
use uptime_monitor_api.Api.Channels.{
  ChannelInput, handle_create_channel, handle_update_channel, handle_delete_channel,
}
use uptime_monitor_api.Api.Rules.{
  RuleInput, handle_create_rule, handle_update_rule, handle_delete_rule,
}
use uptime_monitor_api.Api.Rules.Sound.{IsFit}
use uptime_monitor_api.Api.Rules.Laws.{
  Orderly, create_channel-Stays, update_channel-Stays, delete_channel-Stays, create_rule-Stays,
  update_rule-Stays, delete_rule-Stays,
}

-- A request that writes, with the id in its path, after strconv.
pub data AlertRequest : Type 0 where
  creates_channel : Body ChannelInput → AlertRequest
  updates_channel : Option ℤ → Body ChannelInput → AlertRequest
  deletes_channel : Option ℤ → AlertRequest
  creates_rule : Body RuleInput → AlertRequest
  updates_rule : Option ℤ → Body RuleInput → AlertRequest
  deletes_rule : Option ℤ → AlertRequest

module _ (u : Unicode) (is_address : String → Bool) (sql : Sqlite) where
  abbrev pub serve : AlertRequest → ℕ → Exec Server Reply
  serve (creates_channel body) now = handle_create_channel u is_address sql now body
  serve (updates_channel id body) now = handle_update_channel u is_address sql now id body
  serve (deletes_channel id) now = handle_delete_channel id
  serve (creates_rule body) now = handle_create_rule sql now body
  serve (updates_rule id body) now = handle_update_rule sql now id body
  serve (deletes_rule id) now = handle_delete_rule id

  -- The requests one after the other, each with its time and with what the engine does to it.
  abbrev pub serve_all : List (AlertRequest × ℕ × Faults) → Server → Server
  serve_all [] s = s
  serve_all ((q, now, fs) ∷ rest) s = serve_all rest (serve q now s fs).1

  serve-Orderly :
      (q : AlertRequest) (now : ℕ) (fs : Faults) (s : Server)
      → Orderly s
      → Orderly (serve q now s fs).1
  serve-Orderly (creates_channel body) now fs s h =
      (create_channel-Stays u is_address sql now body).at s fs h
  serve-Orderly (updates_channel id body) now fs s h =
      (update_channel-Stays u is_address sql now id body).at s fs h
  serve-Orderly (deletes_channel id) now fs s h = (delete_channel-Stays id).at s fs h
  serve-Orderly (creates_rule body) now fs s h = (create_rule-Stays sql now body).at s fs h
  serve-Orderly (updates_rule id body) now fs s h = (update_rule-Stays sql now id body).at s fs h
  serve-Orderly (deletes_rule id) now fs s h = (delete_rule-Stays id).at s fs h

  -- Over any sequence of requests that write channels and rules, and whatever statements the engine
  -- refuses: if every stored rule names a channel that exists, has one of the three kinds and a
  -- threshold from 1 to 100, so does every rule that is stored afterwards.
  pub serve_all-IsFit :
      (qs : List (AlertRequest × ℕ × Faults)) (s : Server)
      → All (IsFit s.registry.alert_channels) s.registry.alert_rules
      → (let t = serve_all qs s in All (IsFit t.registry.alert_channels) t.registry.alert_rules)
  serve_all-IsFit [] s h = h
  serve_all-IsFit ((q, now, fs) ∷ rest) s h =
      serve_all-IsFit rest (serve q now s fs).1 (serve-Orderly q now fs s h)
