-- ===== src/Alerts/Quiet.antt =====
-- When a rule sends nothing.
use uptime_monitor_api.Base.{
  arith, ◌≡◌, refl, ◌∙◌, ◌≢◌, ℕ, Bool, true, false, Option, none, some, List, String, ◌==◌, ==_iff,
  if◌then◌else◌,
}
use uptime_monitor_api.Db.{Exec, Result, ok, err, Faults, Sqlite}
use uptime_monitor_api.Db.Answers.{
  Answers, AnswersAt, IfSome, Answers-pure, Answers-update, Answers-query, Answers-bind,
  Answers-attempt_option, Answers-of-Refuses,
}
use uptime_monitor_api.Registry.Claims.{claim_delivery-Refuses}
use uptime_monitor_api.Registry.Tables.{AlertChannel, AlertRule, AlertDelivery, RegistryDb}
use uptime_monitor_api.Registry.Channels.{get_alert_channel, channel_with_id}
use uptime_monitor_api.Registry.Deliveries.{delivery_exists, is_claimed}
use uptime_monitor_api.Alerts.Message.{
  Event, Message, Format, site_down, site_recovered, ssl_expiring, confirm, render, down_key,
  up_key, ssl_key, render_down, render_ssl, announced, down_message, ssl_message, days_left,
  warn_days,
}
use uptime_monitor_api.Base.Int.{ltb_ℤ}
use uptime_monitor_api.Alerts.Dispatcher.{
  World, claim_of, now, on_registry, apply_rule, on_channel, fire, granted,
}

-- Why a rule for the channel `ch` sends nothing.
pub data Suppressed (e : Event) (rule : AlertRule) (ch : AlertChannel) (ledger : List AlertDelivery)
    : String → Type 0 where
  unconfirmed :
      e.transition.consecutive_failures ≢ confirm rule → Suppressed e rule ch ledger site_down
  down_claimed : is_claimed (down_key e ch) ledger ≡ true → Suppressed e rule ch ledger site_down
  unannounced :
      is_claimed (down_key e ch) ledger ≡ false → Suppressed e rule ch ledger site_recovered
  up_claimed : is_claimed (up_key e ch) ledger ≡ true → Suppressed e rule ch ledger site_recovered
  ssl_claimed : is_claimed (ssl_key e ch) ledger ≡ true → Suppressed e rule ch ledger ssl_expiring

module _ {A : Type 0} where
  Answers-on_registry :
      {m : Exec RegistryDb A} {w : World} {Q : A → Type 0}
      → Answers m w.registry Q
      → Answers (on_registry m) w Q
  unfolding on_registry
  Answers-on_registry {m} {w} {Q} h = record { at = λ fs. go (m w.registry fs) (h.at fs) }
    where
      go :
          (o : Result A × RegistryDb × Faults)
          → AnswersAt Q w.registry o
          → AnswersAt Q w (let (r, db, gs) = o in (r, record w { registry = db }, gs))
      go (ok x, t, gs) (same, q) = (rw same refl, q)
      go (err e, t, gs) same = rw same refl

get_alert_channel-Answers :
    (id : ℕ) (ch : AlertChannel) (db : RegistryDb)
    → channel_with_id id db ≡ some ch
    → Answers (get_alert_channel id) db (λ c. c ≡ ch)
unfolding get_alert_channel
get_alert_channel-Answers id ch db found = Answers-update _ db _ (rw found (refl, refl))

delivery_exists-Answers :
    (key : String) (db : RegistryDb)
    → Answers (delivery_exists key) db (λ b. b ≡ is_claimed key db.alert_deliveries)
unfolding delivery_exists
delivery_exists-Answers key db = Answers-query _ db _ refl

-- The alert that is rendered, if one is, has been claimed before.
abbrev Claimed : List AlertDelivery → Option (Message × String) → Type 0
Claimed ledger none = Unit
Claimed ledger (some (msg, key)) = is_claimed key ledger ≡ true

true≢false : ¬ (true ≡ false)
true≢false h = ground arith

Claimed-if :
    (ledger : List AlertDelivery) (b : Bool) (o p : Option (Message × String))
    → (b ≡ true → Claimed ledger o)
    → (b ≡ false → Claimed ledger p)
    → Claimed ledger (if b then o else p)
Claimed-if ledger true o p h k = h refl
Claimed-if ledger false o p h k = k refl

render-Suppressed :
    (format : Format) (e : Event) (kind : String) (rule : AlertRule) (ch : AlertChannel) (ts : ℕ)
    (db : RegistryDb)
    → Suppressed e rule ch db.alert_deliveries kind
    → Answers (render format e kind rule ch ts) db (Claimed db.alert_deliveries)
unfolding render
render-Suppressed format e kind rule ch ts db (unconfirmed h) =
    Answers-pure _ (render_down format e rule ch) db (
      Claimed-if db.alert_deliveries (e.transition.consecutive_failures == confirm rule)
        (some (down_message format e, down_key e ch)) none
        (λ q. absurd (h ((==_iff e.transition.consecutive_failures (confirm rule)).0 q))) (λ _. tt))
render-Suppressed format e kind rule ch ts db (down_claimed h) =
    Answers-pure _ (render_down format e rule ch) db (
      Claimed-if db.alert_deliveries (e.transition.consecutive_failures == confirm rule)
        (some (down_message format e, down_key e ch)) none (λ _. h) (λ _. tt))
render-Suppressed format e kind rule ch ts db (unannounced h) =
    Answers-bind _ (Answers-attempt_option (delivery_exists-Answers (down_key e ch) db))
      (λ o q. Answers-pure _ (announced format e ch o) db (silent o q))
  where
    silent :
        (o : Option Bool)
        → IfSome (λ b. b ≡ is_claimed (down_key e ch) db.alert_deliveries) o
        → Claimed db.alert_deliveries (announced format e ch o)
    silent none q = tt
    silent (some true) q = absurd (true≢false (q ∙ h))
    silent (some false) q = tt
render-Suppressed format e kind rule ch ts db (up_claimed h) =
    Answers-bind _ (Answers-attempt_option (delivery_exists-Answers (down_key e ch) db))
      (λ o q. Answers-pure _ (announced format e ch o) db (repeated o))
  where
    repeated : (o : Option Bool) → Claimed db.alert_deliveries (announced format e ch o)
    repeated none = tt
    repeated (some true) = h
    repeated (some false) = tt
render-Suppressed format e kind rule ch ts db (ssl_claimed h) =
    let days = days_left e.transition.ssl_expires_at ts in
    Answers-pure _ (render_ssl format e ch ts) db (
      Claimed-if db.alert_deliveries (ltb_ℤ (warn_days e.site) days) none
        (some (ssl_message format e days, ssl_key e ch)) (λ _. tt) (λ _. h))

module _ (sql : Sqlite) (format : Format) (retries clock : ℕ) where
  fire-Answers :
      (e : Event) (kind : String) (ch : AlertChannel) (w : World)
      (o : Option (Option (Message × String)))
      → IfSome (Claimed w.registry.alert_deliveries) o
      → Answers (fire sql format retries clock e kind ch o) w (λ _. Unit {0})
  fire-Answers e kind ch w none q = Answers-pure _ tt w tt
  fire-Answers e kind ch w (some none) q = Answers-pure _ tt w tt
  fire-Answers e kind ch w (some (some (msg, key))) q =
      Answers-bind _
        (Answers-attempt_option (
          Answers-on_registry (
            Answers-of-Refuses (
              claim_delivery-Refuses sql (claim_of sql format retries clock e kind ch msg key)
                (now sql format retries clock) w.registry q))))
        refused
    where
      refused :
          (o : Option ℕ)
          → IfSome (λ _. ⊥) o
          → Answers (granted sql format retries clock ch msg o) w (λ _. Unit {0})
      refused none k = Answers-pure _ tt w tt
      refused (some id) k = absurd k

  apply_rule-Answers :
      (e : Event) (kind : String) (rule : AlertRule) (ch : AlertChannel) (w : World)
      → channel_with_id rule.channel_id w.registry ≡ some ch
      → Suppressed e rule ch w.registry.alert_deliveries kind
      → Answers (apply_rule sql format retries clock e kind rule) w (λ _. Unit {0})
  unfolding apply_rule
  apply_rule-Answers e kind rule ch w found h =
      Answers-bind _
        (Answers-attempt_option
          (Answers-on_registry (get_alert_channel-Answers rule.channel_id ch w.registry found)))
        loaded
    where
      loaded :
          (o : Option AlertChannel)
          → IfSome (λ c. c ≡ ch) o
          → Answers (on_channel sql format retries clock e kind rule o) w (λ _. Unit {0})
      loaded none q = Answers-pure _ tt w tt
      loaded (some c) q = rw q (
          Answers-bind _
            (Answers-attempt_option
              (Answers-on_registry (render-Suppressed format e kind rule ch clock w.registry h)))
            (fire-Answers e kind ch w))

  -- A rule for an existing channel whose alert is suppressed (the failures are not at the threshold,
  -- the outage that recovers was not announced on the channel, or the alert is on the ledger already)
  -- changes nothing and calls no sender, whatever the engine does.
  pub apply_rule-Suppressed :
      (e : Event) (kind : String) (rule : AlertRule) (ch : AlertChannel) (w : World) (fs : Faults)
      → channel_with_id rule.channel_id w.registry ≡ some ch
      → Suppressed e rule ch w.registry.alert_deliveries kind
      → (apply_rule sql format retries clock e kind rule w fs).1 ≡ w
  apply_rule-Suppressed e kind rule ch w fs found h =
      unchanged (apply_rule sql format retries clock e kind rule w fs)
        ((apply_rule-Answers e kind rule ch w found h).at fs)
    where
      unchanged : (o : Result (Unit {0}) × World × Faults) → AnswersAt (λ _. Unit {0}) w o → o.1 ≡ w
      unchanged (ok a, t, gs) k = k.0
      unchanged (err x, t, gs) k = k
