-- ===== src/Alerts/Dispatcher.antt =====
-- internal/alerts/alerts.go: the dispatcher, its queue and the handling of one event. The sender
-- is an interface of the source: a script says how each attempt ends.
use uptime_monitor_api.Base.{
  ℕ, zero, suc, ◌+◌, ◌/◌, Bool, true, false, Option, none, some, List, [], ◌∷◌, ◌++◌, String, ◌==◌,
  ltb, if◌then◌else◌, length,
}
use uptime_monitor_api.Base.Int.{ℤ, pos, negsuc}
use uptime_monitor_api.Db.{Exec, ok, pure, ◌>>=◌, ◌>>◌, attempt, attempt_option, Sqlite}
use uptime_monitor_api.Registry.Tables.{AlertChannel, AlertRule, RegistryDb}
use uptime_monitor_api.Registry.Channels.{get_alert_channel}
use uptime_monitor_api.Registry.Rules.{rules_for}
use uptime_monitor_api.Registry.Deliveries.{
  Claim, claim_delivery, mark_delivery_sent, mark_delivery_failed,
}
use uptime_monitor_api.Alerts.Message.{Event, Message, Format, nanoseconds, kinds_for, render}

-- How one attempt ends: the sender's error, if any, and whether the dispatcher is shutting down
-- while it waits for the next one.
pub record Attempt : Type 0 where
  pub failure : Option String
  pub stopping : Bool

-- One call of `Sender.Send`.
pub record Mail : Type 0 where
  pub recipient : String
  pub message : Message

-- The registry, what the sender was asked to send so far, and the attempts to come.
pub record World : Type 0 where
  pub registry : RegistryDb
  pub outbox : List Mail
  pub attempts : List Attempt

module _ {A : Type 0} where
  unfoldable pub on_registry : Exec RegistryDb A → Exec World A
  on_registry m w fs = let (r, db, fs') = m w.registry fs in (r, record w { registry = db }, fs')

abbrev pub delivered : Attempt
delivered = record { failure = none; stopping = false }

-- After the script's end every attempt succeeds.
abbrev pub next_attempt : List Attempt → Attempt × List Attempt
next_attempt [] = (delivered, [])
next_attempt (a ∷ rest) = (a, rest)

abbrev pub sent_mail : Mail → World → World
sent_mail m w = record w { outbox = w.outbox ++ m ∷ []; attempts = (next_attempt w.attempts).1 }

unfoldable pub send : Mail → Exec World Attempt
send m w fs = (ok (next_attempt w.attempts).0, sent_mail m w, fs)

-- `Options`: the durations only bound waits and are not modelled.
pub record Options : Type 0 where
  pub queue_size : ℤ
  pub workers : ℤ
  pub retries : ℤ

abbrev or_default : ℤ → ℕ → ℤ
or_default (pos zero) d = pos d
or_default (pos (suc n)) d = pos (suc n)
or_default (negsuc n) d = pos d

-- `withDefaults`
unfoldable pub with_defaults : Options → Options
with_defaults o = record {
  queue_size = or_default o.queue_size 256;
  workers = or_default o.workers 2;
  retries = or_default o.retries 2;
}

-- `clock` is the time in Unix nanoseconds, read once for an event.
module _ (sql : Sqlite) (format : Format) (retries clock : ℕ) where
  abbrev pub now : ℕ
  now = clock / nanoseconds

  abbrev pub given_up : ℕ → String → Exec World (Unit {0})
  given_up id e = attempt (on_registry (mark_delivery_failed id (retries + 1) e))

  -- What follows an attempt, by its error and whether the dispatcher stops.
  abbrev pub concluded :
      (number id : ℕ)
      → (String → Exec World (Unit {0}))
      → Option String
      → Bool
      → Exec World (Unit {0})
  concluded number id again none stopping = attempt (on_registry (mark_delivery_sent id number now))
  concluded number id again (some e) true = given_up id e
  concluded number id again (some e) false = again e

  -- The loop of `deliver`, with `left` retries after attempt number `number`.
  unfoldable pub deliver_from : (left number : ℕ) → ℕ → Mail → Exec World (Unit {0})
  deliver_from zero number id m =
      send m >>= λ a. concluded number id (given_up id) a.failure a.stopping
  deliver_from (suc left) number id m = send m >>= λ a.
      concluded number id (λ _. deliver_from left (number + 1) id m) a.failure a.stopping

  -- `deliver`
  unfoldable pub deliver : ℕ → AlertChannel → Message → Exec World (Unit {0})
  deliver id ch msg = deliver_from retries 1 id (record { recipient = ch.target; message = msg })

  abbrev pub incident_ref : ℕ → Option ℕ
  incident_ref id = if id == 0 then none else some id

  abbrev pub claim_of : Event → String → AlertChannel → Message → String → Claim
  claim_of e kind ch msg key = record {
    dedupe_key = key;
    site_id = e.site.id;
    kind = kind;
    channel_id = ch.id;
    incident_id = incident_ref e.transition.incident_id;
    subject = msg.subject;
  }

  -- The mail goes out only if the claim was granted.
  abbrev pub granted : AlertChannel → Message → Option ℕ → Exec World (Unit {0})
  granted ch msg none = pure tt
  granted ch msg (some id) = deliver id ch msg

  abbrev pub fire :
      Event → String → AlertChannel → Option (Option (Message × String)) → Exec World (Unit {0})
  fire e kind ch (some (some (msg, key))) =
      attempt_option (on_registry (claim_delivery sql (claim_of e kind ch msg key) now))
      >>= granted ch msg
  fire e kind ch _ = pure tt

  abbrev pub on_channel : Event → String → AlertRule → Option AlertChannel → Exec World (Unit {0})
  on_channel e kind rule none = pure tt
  on_channel e kind rule (some ch) =
      attempt_option (on_registry (render format e kind rule ch clock)) >>= fire e kind ch

  -- `applyRule`
  unfoldable pub apply_rule : Event → String → AlertRule → Exec World (Unit {0})
  apply_rule e kind rule =
      attempt_option (on_registry (get_alert_channel rule.channel_id)) >>= on_channel e kind rule

  abbrev pub apply_rules : Event → String → List AlertRule → Exec World (Unit {0})
  apply_rules e kind [] = pure tt
  apply_rules e kind (r ∷ rs) = apply_rule e kind r >> apply_rules e kind rs

  abbrev pub apply_loaded : Event → String → Option (List AlertRule) → Exec World (Unit {0})
  apply_loaded e kind none = pure tt
  apply_loaded e kind (some rules) = apply_rules e kind rules

  abbrev pub handle_kinds : Event → List String → Exec World (Unit {0})
  handle_kinds e [] = pure tt
  handle_kinds e (k ∷ ks) =
      attempt_option (on_registry (rules_for e.site.id k)) >>= apply_loaded e k >> handle_kinds e ks

  -- `handle`
  unfoldable pub handle : Event → Exec World (Unit {0})
  unfolding kinds_for
  handle e = handle_kinds e (kinds_for e)

-- The queue of the dispatcher and the count of what it had no room for.
pub record Queue : Type 0 where
  pub pending : List Event
  pub capacity : ℕ
  pub dropped : ℕ

-- `Enqueue`
unfoldable pub enqueue : Event → Queue → Queue
enqueue e q =
    if ltb (length q.pending) q.capacity
    then record q { pending = q.pending ++ e ∷ [] }
    else record q { dropped = q.dropped + 1 }

-- A worker takes the oldest event.
unfoldable pub dequeue : Queue → Option (Event × Queue)
dequeue q = elim q.pending [ [] ↦ none | e ∷ es ↦ some (e, record q { pending = es }) ]
