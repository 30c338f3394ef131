-- ===== src/Alerts/Bounds.antt =====
-- The mails and the ledger rows of one handled event (internal/alerts/alerts.go).
use uptime_monitor_api.Base.{
  arith, ◌≡◌, refl, ap, ℕ, zero, suc, ◌+◌, ◌*◌, ◌≤◌, Bool, true, false, Option, none, some, List,
  [], ◌∷◌, String, length, length-append,
}
use uptime_monitor_api.Db.{
  Exec, Result, ok, err, Faults, pure, ◌>>=◌, attempt, attempt_option, Sqlite,
}
use uptime_monitor_api.Db.Ensures.{
  Ensures, Ensures-pure, Ensures-attempt, Ensures-attempt_option, Ensures-bind,
}
use uptime_monitor_api.Registry.Tables.{AlertChannel, AlertRule, RegistryDb}
use uptime_monitor_api.Registry.Deliveries.{Claim, claim_delivery}
use uptime_monitor_api.Alerts.Ledger.{
  SameSize, mark_delivery_sent-SameSize, mark_delivery_failed-SameSize, get_alert_channel-SameSize,
  rules_for-SameSize, render-SameSize, ClaimAt, claim_delivery-ClaimAt,
}
use uptime_monitor_api.Alerts.Message.{Event, Message, Format, kinds_for}
use native.Mathlib.Nat.{mul-add}
use uptime_monitor_api.Alerts.Dispatcher.{
  Attempt, Mail, World, on_registry, next_attempt, sent_mail, send, now, concluded, deliver_from,
  deliver, granted, fire, on_channel, apply_rule, apply_rules, apply_loaded, handle_kinds, handle,
}

abbrev pub ledger_size : World → ℕ
ledger_size w = length w.registry.alert_deliveries

-- At most `n` more mails, and no row more on the ledger.
abbrev pub Sends : ℕ → World → World → Type 0
Sends n w w' = (length w'.outbox ≤ length w.outbox + n) × (ledger_size w' ≡ ledger_size w)

-- A registry action seen from the world.
pub Ensures-on_registry :
    {A : Type 0} {P : RegistryDb → RegistryDb → Type 0} {m : Exec RegistryDb A}
    → Ensures P m
    → Ensures (λ w w'. P w.registry w'.registry × (w'.outbox ≡ w.outbox)) (on_registry m)
unfolding on_registry
Ensures-on_registry h = record { at = λ w fs. (h.at w.registry fs, refl) }

module _ (sql : Sqlite) (format : Format) (retries clock : ℕ) where
  marked-Sends :
      {m : Exec RegistryDb (Unit {0})} (k : ℕ)
      → Ensures SameSize m
      → Ensures (Sends k) (attempt (on_registry m))
  marked-Sends k h =
      let kept = Ensures-attempt (Ensures-on_registry h) in
      record { at = λ w fs. (rw (kept.at w fs).1 (omega arith), (kept.at w fs).0) }

  concluded-Sends :
      (k number id : ℕ) (again : String → Exec World (Unit {0})) (o : Option String) (stop : Bool)
      → ((e : String) → Ensures (Sends k) (again e))
      → Ensures (Sends k) (concluded sql format retries clock number id again o stop)
  concluded-Sends k number id again none stop h =
      marked-Sends k (mark_delivery_sent-SameSize id number (now sql format retries clock))
  concluded-Sends k number id again (some e) true h =
      marked-Sends k (mark_delivery_failed-SameSize id (retries + 1) e)
  concluded-Sends k number id again (some e) false h = h e

  send-Sends :
      {A : Type 0} (k : ℕ) (m : Mail) (f : Attempt → Exec World A)
      → ((a : Attempt) → Ensures (Sends k) (f a))
      → Ensures (Sends (suc k)) (send m >>= f)
  unfolding send ◌>>=◌
  send-Sends k m f h = record {
    at = λ w fs.
        later w ((f (next_attempt w.attempts).0 (sent_mail m w) fs).1)
          ((h (next_attempt w.attempts).0).at (sent_mail m w) fs);
  }
    where
      later : (w w' : World) → Sends k (sent_mail m w) w' → Sends (suc k) w w'
      later w w' (p, q) = let one = length-append w.outbox (m ∷ []) in (omega arith, q)

  -- One delivery calls the sender at most once and `left` times again, and leaves the ledger's size.
  pub deliver_from-Sends :
      (left number id : ℕ) (m : Mail)
      → Ensures (Sends (suc left)) (deliver_from sql format retries clock left number id m)
  unfolding deliver_from
  deliver_from-Sends zero number id m = send-Sends 0 m _ λ a.
      concluded-Sends 0 number id _ a.failure a.stopping
        (λ e. marked-Sends 0 (mark_delivery_failed-SameSize id (retries + 1) e))
  deliver_from-Sends (suc left) number id m = send-Sends (suc left) m _ λ a.
      concluded-Sends (suc left) number id _ a.failure a.stopping
        (λ e. deliver_from-Sends left (number + 1) id m)

  -- The bound that a handled event keeps: `suc retries` mails for each new row of the ledger.
  abbrev pub Within : World → World → Type 0
  Within w w' =
      length w'.outbox + suc retries * ledger_size w
      ≤ length w.outbox + suc retries * ledger_size w'

  pub Within-trans : (u v w : World) → Within u v → Within v w → Within u w
  Within-trans u v w h k = omega arith

  Within-of-Sends :
      (w w' w'' : World)
      → ledger_size w' ≡ ledger_size w + 1
      → w'.outbox ≡ w.outbox
      → Sends (suc retries) w' w''
      → Within w w''
  Within-of-Sends w w' w'' grown same (p, q) =
      let product = mul-add (suc retries) (ledger_size w) 1 in
      let size = ap length same in rw (q, grown) (omega arith)

  -- A claim that is granted adds a row, and pays for what is sent then.
  claim-Within :
      (c : Claim) (f : Option ℕ → Exec World (Unit {0}))
      → ((id : ℕ) → Ensures (Sends (suc retries)) (f (some id)))
      → Ensures (Sends 0) (f none)
      → Ensures Within
          (attempt_option (on_registry (claim_delivery sql c (now sql format retries clock))) >>= f)
  unfolding ◌>>=◌ on_registry attempt_option
  claim-Within c f paid refused = record {
    at = λ w fs. go w _ (claim_delivery-ClaimAt sql c (now sql format retries clock) w.registry fs);
  }
    where
      go :
          (w : World) (o : Result ℕ × RegistryDb × Faults)
          → ClaimAt w.registry o
          → Within w
              (let (r, db, gs) = o in
                elim (elim r as (λ _. Result (Option ℕ)) [ ok a ↦ ok (some a) | err e ↦ ok none ])
                  as (λ _. Result (Unit {0}) × World × Faults) [
                    | ok a ↦ f a (record w { registry = db }) gs
                    | err e ↦ (err e, record w { registry = db }, gs)
                  ]).1
      go w (ok id, db, gs) k =
          Within-of-Sends w (record w { registry = db })
            (f (some id) (record w { registry = db }) gs).1 k refl
            ((paid id).at (record w { registry = db }) gs)
      go w (err e, db, gs) k =
          let sent = refused.at (record w { registry = db }) gs in rw (sent.1, k) (omega arith)

  Within-registry :
      {A : Type 0} {m : Exec RegistryDb A}
      → Ensures SameSize m
      → Ensures Within (attempt_option (on_registry m))
  Within-registry h =
      let kept = Ensures-attempt_option (Ensures-on_registry h) in
      record { at = λ w fs. rw ((kept.at w fs).0, (kept.at w fs).1) (omega arith) }

  Within-pure : Ensures Within (pure tt)
  Within-pure = Ensures-pure (λ w. omega arith) tt

  fire-Within :
      (e : Event) (kind : String) (ch : AlertChannel) (o : Option (Option (Message × String)))
      → Ensures Within (fire sql format retries clock e kind ch o)
  unfolding deliver
  fire-Within e kind ch none = Within-pure
  fire-Within e kind ch (some none) = Within-pure
  fire-Within e kind ch (some (some (msg, key))) =
      claim-Within _ (granted sql format retries clock ch msg)
        (λ id. deliver_from-Sends retries 1 id _) (Ensures-pure (λ w. (omega arith, refl)) tt)

  on_channel-Within :
      (e : Event) (kind : String) (rule : AlertRule) (o : Option AlertChannel)
      → Ensures Within (on_channel sql format retries clock e kind rule o)
  on_channel-Within e kind rule none = Within-pure
  on_channel-Within e kind rule (some ch) =
      Ensures-bind Within-trans _ (Within-registry (render-SameSize format e kind rule ch clock))
        (fire-Within e kind ch)

  apply_rules-Within :
      (e : Event) (kind : String) (rules : List AlertRule)
      → Ensures Within (apply_rules sql format retries clock e kind rules)
  unfolding apply_rule
  apply_rules-Within e kind [] = Within-pure
  apply_rules-Within e kind (r ∷ rs) =
      Ensures-bind Within-trans _
        (Ensures-bind Within-trans _ (Within-registry (get_alert_channel-SameSize r.channel_id))
          (on_channel-Within e kind r))
        (λ _. apply_rules-Within e kind rs)

  apply_loaded-Within :
      (e : Event) (kind : String) (o : Option (List AlertRule))
      → Ensures Within (apply_loaded sql format retries clock e kind o)
  apply_loaded-Within e kind none = Within-pure
  apply_loaded-Within e kind (some rules) = apply_rules-Within e kind rules

  handle_kinds-Within :
      (e : Event) (kinds : List String)
      → Ensures Within (handle_kinds sql format retries clock e kinds)
  handle_kinds-Within e [] = Within-pure
  handle_kinds-Within e (k ∷ ks) =
      Ensures-bind Within-trans _
        (Ensures-bind Within-trans _ (Within-registry (rules_for-SameSize e.site.id k))
          (apply_loaded-Within e k))
        (λ _. handle_kinds-Within e ks)

  pub handle-Within : (e : Event) → Ensures Within (handle sql format retries clock e)
  unfolding handle
  handle-Within e = handle_kinds-Within e (kinds_for e)
