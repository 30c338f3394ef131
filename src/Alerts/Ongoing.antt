-- ===== src/Alerts/Ongoing.antt =====
-- The alerts of the events that `RecordTick` raises in the middle of an outage.
use uptime_monitor_api.Base.{◌≡◌, refl, ap, subst, ◌∙◌, ℕ, false, true, some}
use uptime_monitor_api.Config.{SiteConfig}
use uptime_monitor_api.Db.{ok, Faults, Sqlite}
use uptime_monitor_api.Db.Runs.{CommitsAt}
use uptime_monitor_api.Registry.Tables.{AlertChannel, AlertRule}
use uptime_monitor_api.Registry.Channels.{channel_with_id}
use uptime_monitor_api.Registry.Deliveries.{is_claimed}
use uptime_monitor_api.Site.Tables.{SiteState, SiteDb}
use uptime_monitor_api.Site.Tick.{Tick, Transition, transition, insert_result, record_tick}
use uptime_monitor_api.Site.Tick.Step.{edge, applied, record_tick-applied}
use uptime_monitor_api.Alerts.Message.{Event, Format, site_down, down_key}
use uptime_monitor_api.Alerts.Dispatcher.{World, apply_rule}
use uptime_monitor_api.Alerts.Quiet.{down_claimed, apply_rule-Suppressed}

-- What the transition hook hands to the dispatcher.
abbrev pub event_of : SiteConfig → ℕ → Transition → Event
event_of site at tr = record { site = site; transition = tr; at = at }

module _ (sql : Sqlite) where
  -- `RecordTick` has recorded a failing tick of a site that was down before, and told of it by `tr`.
  pub record Failed (t : Tick) (tr : Transition) : Type 0 where
    pub st : SiteState
    pub db : SiteDb
    pub fs : Faults
    pub left : SiteDb
    pub rest : Faults
    pub down : t.up ≡ false
    pub has_state : db.site_state ≡ some st
    pub was_down : st.current_up ≡ some 0
    pub ran : record_tick sql t db fs ≡ (ok tr, left, rest)

  edge-ongoing :
      (t : Tick) (st : SiteState) (db : SiteDb)
      → t.up ≡ false
      → st.current_up ≡ some 0
      → (edge sql t st db).edge_id ≡ 0
  unfolding edge
  edge-ongoing t st db down was = rw (down, was) refl

  Failed-incident_id : (t : Tick) (tr : Transition) → Failed t tr → tr.incident_id ≡ 0
  Failed-incident_id t tr f =
      let committed =
        subst
          (CommitsAt f.db (transition t f.st (edge sql t f.st (insert_result sql t f.db)))
            (applied sql t f.st f.db) f.fs)
          f.ran ((record_tick-applied sql t f.st f.db f.has_state).at f.fs) in
      ap (λ x. x.incident_id) committed.0
      ∙ edge-ongoing t f.st (insert_result sql t f.db) f.down f.was_down

  Failed-down_key :
      (site : SiteConfig) (ch : AlertChannel) (at at' : ℕ) (t t' : Tick) (tr tr' : Transition)
      → Failed t tr
      → Failed t' tr'
      → down_key (event_of site at tr) ch ≡ down_key (event_of site at' tr') ch
  Failed-down_key site ch at at' t t' tr tr' f f' =
      rw (Failed-incident_id t tr f, Failed-incident_id t' tr' f') refl

  -- One down alert for all outages: where the alert of one failing tick that was recorded in the middle
  -- of an outage is on the ledger for a channel, the down rules of that channel change nothing and send
  -- nothing for any other such tick of the site, in whichever outage it falls, whatever the engine does:
  -- `RecordTick` tells of none of these ticks to which incident it belongs.
  pub apply_rule-ongoing :
      (format : Format) (retries clock : ℕ) (site : SiteConfig) (rule : AlertRule)
      (ch : AlertChannel) (at at' : ℕ) (t t' : Tick) (tr tr' : Transition) (w : World) (gs : Faults)
      → Failed t tr
      → Failed t' tr'
      → channel_with_id rule.channel_id w.registry ≡ some ch
      → is_claimed (down_key (event_of site at tr) ch) w.registry.alert_deliveries ≡ true
      → (apply_rule sql format retries clock (event_of site at' tr') site_down rule w gs).1 ≡ w
  apply_rule-ongoing format retries clock site rule ch at at' t t' tr tr' w gs f f' found claimed =
      apply_rule-Suppressed sql format retries clock (event_of site at' tr') site_down rule ch w gs
        found
        (down_claimed (
          subst (λ k. is_claimed k w.registry.alert_deliveries ≡ true)
            (Failed-down_key site ch at at' t t' tr tr' f f') claimed))
