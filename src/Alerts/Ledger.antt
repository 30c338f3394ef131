-- ===== src/Alerts/Ledger.antt =====
-- How the registry actions of the dispatcher change the number of rows of the ledger.
use uptime_monitor_api.Base.{
  arith, ◌≡◌, refl, ap, ◌∙◌, ℕ, suc, ◌+◌, Bool, true, false, Option, none, some, List, [], ◌∷◌,
  String, if◌then◌else◌, length, length-append, map,
}
use uptime_monitor_api.Db.{Exec, Result, ok, err, Faults, pure, ◌>>=◌, Sqlite}
use uptime_monitor_api.Db.Ensures.{
  Ensures, Ensures-pure, Ensures-update, Ensures-query, Ensures-attempt_option, Ensures-bind,
}
use uptime_monitor_api.Registry.Tables.{AlertChannel, AlertRule, AlertDelivery, RegistryDb}
use uptime_monitor_api.Registry.Channels.{get_alert_channel, found_channel, channel_with_id}
use uptime_monitor_api.Registry.Rules.{rules_for}
use uptime_monitor_api.Registry.Deliveries.{
  Claim, claim_delivery, mark_delivery_sent, mark_delivery_failed, delivery_exists, mark_row,
}
use uptime_monitor_api.Registry.Claims.{claimed_row}
use uptime_monitor_api.Alerts.Message.{
  Event, Message, Format, site_down, site_recovered, ssl_expiring, render, render_down, render_ssl,
  announced, down_key,
}
use uptime_monitor_api.Base.Text.{str_eq}

pub length-mark_row :
    (id : ℕ) (f : AlertDelivery → AlertDelivery) (ds : List AlertDelivery)
    → length (mark_row id f ds) ≡ length ds
length-mark_row id f [] = refl
length-mark_row id f (d ∷ ds) = ap suc (length-mark_row id f ds)

abbrev pub SameSize : RegistryDb → RegistryDb → Type 0
SameSize db db' = length db'.alert_deliveries ≡ length db.alert_deliveries

pub mark_delivery_sent-SameSize : (id n ts : ℕ) → Ensures SameSize (mark_delivery_sent id n ts)
unfolding mark_delivery_sent
mark_delivery_sent-SameSize id n ts =
    Ensures-update (λ db. refl) _ (λ db. length-mark_row id _ db.alert_deliveries)

pub mark_delivery_failed-SameSize :
    (id n : ℕ) (e : String) → Ensures SameSize (mark_delivery_failed id n e)
unfolding mark_delivery_failed
mark_delivery_failed-SameSize id n e =
    Ensures-update (λ db. refl) _ (λ db. length-mark_row id _ db.alert_deliveries)

-- Reading the registry.
pub get_alert_channel-SameSize : (id : ℕ) → Ensures SameSize (get_alert_channel id)
unfolding get_alert_channel
get_alert_channel-SameSize id =
    Ensures-update (λ db. refl) _ (λ db. found db (channel_with_id id db))
  where
    found : (db : RegistryDb) (o : Option AlertChannel) → SameSize db (found_channel o db).1
    found db none = refl
    found db (some c) = refl

pub delivery_exists-SameSize : (key : String) → Ensures SameSize (delivery_exists key)
unfolding delivery_exists
delivery_exists-SameSize key = Ensures-query (λ db. refl) _

pub rules_for-SameSize : (site_id kind : String) → Ensures SameSize (rules_for site_id kind)
unfolding rules_for
rules_for-SameSize site_id kind = Ensures-query (λ db. refl) _

pub if-Ensures :
    {S A : Type 0} {P : S → S → Type 0} (b : Bool) {m n : Exec S A}
    → Ensures P m
    → Ensures P n
    → Ensures P (if b then m else n)
if-Ensures true h k = h
if-Ensures false h k = k

pub render-SameSize :
    (format : Format) (e : Event) (kind : String) (rule : AlertRule) (ch : AlertChannel) (ts : ℕ)
    → Ensures SameSize (render format e kind rule ch ts)
unfolding render
render-SameSize format e kind rule ch ts =
    if-Ensures (str_eq kind site_down) (pure-SameSize (render_down format e rule ch)) (
      if-Ensures (str_eq kind site_recovered)
        (Ensures-bind (λ a b c p q. q ∙ p) (λ found. pure (announced format e ch found))
          (Ensures-attempt_option (delivery_exists-SameSize (down_key e ch)))
          (λ found. pure-SameSize (announced format e ch found)))
        (if-Ensures (str_eq kind ssl_expiring) (pure-SameSize (render_ssl format e ch ts))
          (pure-SameSize none)))
  where
    pure-SameSize : (o : Option (Message × String)) → Ensures SameSize (pure o)
    pure-SameSize o = Ensures-pure (λ db. refl) o

abbrev pub ClaimAt : RegistryDb → Result ℕ × RegistryDb × Faults → Type 0
ClaimAt db (ok id, db', fs') = length db'.alert_deliveries ≡ length db.alert_deliveries + 1
ClaimAt db (err e, db', fs') = length db'.alert_deliveries ≡ length db.alert_deliveries

pub claim_delivery-ClaimAt :
    (sql : Sqlite) (c : Claim) (ts : ℕ) (db : RegistryDb) (fs : Faults)
    → ClaimAt db (claim_delivery sql c ts db fs)
unfolding claim_delivery ◌>>=◌
claim_delivery-ClaimAt sql c ts db fs =
    let grown =
      length-append db.alert_deliveries
        (claimed_row (sql.new_rowid (map (λ d. d.id) db.alert_deliveries)) c ts ∷ []) in
    ground arith
