-- ===== src/Api/Rules/Laws.antt =====
-- internal/api/alerts.go: what the alert handlers leave of the rules.
use uptime_monitor_api.Base.{
  ℕ, ◌≡◌, refl, Bool, true, false, not, Option, none, some, ◌==◌, String, any, find, if◌then◌else◌,
  arith, Bool-cases, inl, inr,
}
use uptime_monitor_api.Base.Int.{ℤ, pos}
use uptime_monitor_api.Base.Text.{Unicode, is_empty}
use uptime_monitor_api.Db.{
  Exec, Result, ok, err, Error, Sqlite, pure, ◌>>=◌, attempt_result, update, alert_not_found,
}
use uptime_monitor_api.Db.Hoare.{
  Hoare, Outcome, Hoare-pure, Hoare-update, Hoare-query, Hoare-result, Hoare-option, Hoare-bind,
  Hoare-if,
}
use uptime_monitor_api.Registry.Tables.{foreign_key_violation, AlertChannel, AlertRule, RegistryDb}
use uptime_monitor_api.Registry.Sites.{site_exists}
use uptime_monitor_api.Registry.Channels.{
  has_channel, found_channel, channel_with_id, get_alert_channel, create_alert_channel,
  update_alert_channel, delete_alert_channel,
}
use uptime_monitor_api.Registry.Rules.{
  found_rule, set_rule, channel_exists, get_alert_rule, create_alert_rule, update_alert_rule,
  delete_alert_rule,
}
use uptime_monitor_api.Api.{Server, Reply, Body, unreadable, invalid, decoded, in_registry}
use uptime_monitor_api.Api.Hoare.{Hoare-in_registry}
use uptime_monitor_api.Api.Channels.{
  ChannelInput, path_id, decode_channel, new_channel, changed_channel, create_channel,
  handle_create_channel, update_channel, update_channel_at, handle_update_channel,
  delete_channel_at, handle_delete_channel,
}
use uptime_monitor_api.Api.Channels
use uptime_monitor_api.Api.Rules.{
  RuleInput, Decoded, accepted, refused, valid_alert_kind, bad_confirm, confirmed, with_site,
  decode_site, with_channel, decode_rule, dropped_rule_at, handle_delete_rule, create_rule,
  handle_create_rule, update_rule, update_found, update_rule_at, handle_update_rule, new_rule,
  changed_rule, confirm_or,
}
use uptime_monitor_api.Api.Rules.Sound.{
  AllFit, AllFit-insert_channel, AllFit-set_channel, AllFit-drop_channel, AllFit-insert_rule,
  AllFit-set_rule, AllFit-filter, found-IsFit,
}

-- Every stored rule is fit.
abbrev pub Orderly : Server → Type 0
Orderly s = AllFit s.registry

abbrev pub Stays : {A : Type 0} → Exec Server A → Type 0
Stays m = Hoare Orderly m (λ r. Orderly)

Stays-update :
    {A : Type 0} (f : RegistryDb → Result A × RegistryDb)
    → ((db : RegistryDb) → AllFit db → AllFit (f db).1)
    → Stays (in_registry (update f))
Stays-update f h = Hoare-in_registry _ λ s. Hoare-update f h (λ e db p. p)

-- A call that keeps the rules fit, and a reply to its outcome.
Stays-reply :
    {A : Type 0} (m : Exec Server A) (f : Result A → Reply)
    → Stays m
    → Stays (attempt_result m >>= λ r. pure (f r))
Stays-reply m f h = Hoare-result (λ r. Orderly) m _ h (λ r. Hoare-pure _ (λ s p. p))

-- A statement that writes only if there is a row.
AllFit-if :
    {A : Type 0} (b : Bool) (a : A) (e : Error) (db db' : RegistryDb)
    → AllFit db
    → AllFit db'
    → (let r = if◌then◌else◌ {A = Result A × RegistryDb} b (ok a, db') (err e, db) in AllFit r.1)
AllFit-if true a e db db' h k = k
AllFit-if false a e db db' h k = h

found_channel-AllFit :
    (o : Option AlertChannel) (db : RegistryDb) → AllFit db → AllFit (found_channel o db).1
found_channel-AllFit none db h = h
found_channel-AllFit (some c) db h = h

get_channel-Stays : (id : ℕ) → Stays (in_registry (get_alert_channel id))
unfolding get_alert_channel
get_channel-Stays id = Stays-update _ (λ db h. found_channel-AllFit (channel_with_id id db) db h)

pub delete_channel-Stays : (raw : Option ℤ) → Stays (handle_delete_channel raw)
unfolding handle_delete_channel delete_alert_channel
delete_channel-Stays raw = go (path_id raw)
  where
    go : (o : Option ℕ) → Stays (delete_channel_at o)
    go none = Hoare-pure _ (λ s p. p)
    go (some id) = Stays-reply _ _ (
        Stays-update _ (λ db h.
          AllFit-if (has_channel id db) tt alert_not_found db _ h (AllFit-drop_channel id db h)))

pub delete_rule-Stays : (raw : Option ℤ) → Stays (handle_delete_rule raw)
unfolding handle_delete_rule delete_alert_rule
delete_rule-Stays raw = go (path_id raw)
  where
    go : (o : Option ℕ) → Stays (dropped_rule_at o)
    go none = Hoare-pure _ (λ s p. p)
    go (some id) =
        Stays-reply _ _
          (Stays-update _ (λ db h. AllFit-if _ tt alert_not_found db _ h (AllFit-filter _ db h)))

module _ (u : Unicode) (is_address : String → Bool) (sql : Sqlite) (now : ℕ) where
  pub create_channel-Stays :
      (body : Body ChannelInput) → Stays (handle_create_channel u is_address sql now body)
  unfolding handle_create_channel create_alert_channel
  create_channel-Stays body = go (decode_channel u is_address sql now body)
    where
      go : (r : Result ChannelInput) → Stays (create_channel u is_address sql now r)
      go (err e) = Hoare-pure _ (λ s p. p)
      go (ok i) = Stays-reply _ _ (
          Stays-update _
            (λ db h. AllFit-insert_channel sql (new_channel u is_address sql now i) now db h))

  written_channel-Stays :
      (ch : AlertChannel) (r : Result ChannelInput)
      → Stays (update_channel u is_address sql now ch r)
  unfolding update_alert_channel
  written_channel-Stays ch (err e) = Hoare-pure _ (λ s p. p)
  written_channel-Stays ch (ok i) = Stays-reply _ _ (
      Stays-update _ (λ db h.
        AllFit-if _ tt alert_not_found db _ h
          (AllFit-set_channel (changed_channel u is_address sql now ch i) now db h)))

  pub update_channel-Stays :
      (raw : Option ℤ) (body : Body ChannelInput)
      → Stays (handle_update_channel u is_address sql now raw body)
  unfolding handle_update_channel
  update_channel-Stays raw body = go (path_id raw)
    where
      found : (r : Result AlertChannel) → Stays (Channels.update_found u is_address sql now body r)
      found (err e) = Hoare-pure _ (λ s p. p)
      found (ok ch) = written_channel-Stays ch (decode_channel u is_address sql now body)

      go : (o : Option ℕ) → Stays (update_channel_at u is_address sql now body o)
      go none = Hoare-pure _ (λ s p. p)
      go (some id) = Hoare-result (λ r. Orderly) _ _ (get_channel-Stays id) found

-- What a decoded rule has.
abbrev Sane : Decoded → Type 0
Sane (accepted i) = (valid_alert_kind i.kind ≡ true) × (bad_confirm i.confirm_after ≡ false)
Sane (refused reply) = Unit

abbrev Decodes : Exec Server Decoded → Type 0
Decodes m = Hoare Orderly m (Outcome (λ d s. Orderly s × Sane d) Orderly)

confirmed-Decodes : (i : RuleInput) → valid_alert_kind i.kind ≡ true → Decodes (confirmed i)
confirmed-Decodes i k =
    Hoare-if (bad_confirm i.confirm_after) (λ e. Hoare-pure _ (λ s p. (p, tt)))
      (λ e. Hoare-pure _ (λ s p. (p, (k, e))))

with_site-Decodes :
    (i : RuleInput) (r : Result Bool) → valid_alert_kind i.kind ≡ true → Decodes (with_site i r)
with_site-Decodes i (err e) k = Hoare-pure _ (λ s p. (p, tt))
with_site-Decodes i (ok found) k =
    Hoare-if found (λ e. confirmed-Decodes i k) (λ e. Hoare-pure _ (λ s p. (p, tt)))

decode_site-Decodes :
    (i : RuleInput) (o : Option String) → valid_alert_kind i.kind ≡ true → Decodes (decode_site i o)
unfolding site_exists
decode_site-Decodes i none k = confirmed-Decodes i k
decode_site-Decodes i (some id) k =
    Hoare-if (is_empty id) (λ e. confirmed-Decodes (record i { site_id = none }) k)
      (λ e.
        Hoare-result (λ r. Orderly) _ _
          (Hoare-in_registry _ λ s. Hoare-query _ (λ db p. p) (λ e db p. p))
          (λ r. with_site-Decodes i r k))

with_channel-Decodes :
    (i : RuleInput) (o : Option AlertChannel)
    → valid_alert_kind i.kind ≡ true
    → Decodes (with_channel i o)
with_channel-Decodes i none k = Hoare-pure _ (λ s p. (p, tt))
with_channel-Decodes i (some ch) k = decode_site-Decodes i i.site_id k

decode_rule-Decodes : (body : Body RuleInput) → Decodes (decode_rule body)
unfolding decode_rule
decode_rule-Decodes unreadable = Hoare-pure _ (λ s p. (p, tt))
decode_rule-Decodes (invalid e) = Hoare-pure _ (λ s p. (p, tt))
decode_rule-Decodes (decoded i) =
    Hoare-if (not (valid_alert_kind i.kind)) (λ e. Hoare-pure _ (λ s p. (p, tt)))
      (λ e.
        Hoare-option Orderly _ _ (get_channel-Stays i.channel_id)
          (λ o. with_channel-Decodes i o (ground arith)))

confirm_or-good :
    (n : ℤ) (o : Option ℤ)
    → bad_confirm (some n) ≡ false
    → bad_confirm o ≡ false
    → bad_confirm (some (confirm_or n o)) ≡ false
confirm_or-good n none h k = h
confirm_or-good n (some m) h k = k

module _ (sql : Sqlite) (now : ℕ) where
  pub create_rule-Stays : (body : Body RuleInput) → Stays (handle_create_rule sql now body)
  unfolding handle_create_rule create_alert_rule
  create_rule-Stays body =
      Hoare-bind (Outcome (λ d s. Orderly s × Sane d) Orderly) _ _ (decode_rule-Decodes body)
        (λ e s p. p) go
    where
      go : (d : Decoded) → Hoare (λ s. Orderly s × Sane d) (create_rule sql now d) (λ r. Orderly)
      go (refused reply) = Hoare-pure _ (λ s p. p.0)
      go (accepted i) =
          Hoare-result (λ r. Orderly) _ _
            (Hoare-in_registry _ λ s.
              Hoare-update _
                (λ db p.
                  AllFit-insert_rule sql (new_rule i) now db (p.1.0)
                    (confirm_or-good (pos 2) i.confirm_after refl p.1.1) p.0)
                (λ e db p. p.0))
            (λ r. Hoare-pure _ (λ s p. p))

  AllFit-write :
      (there : Bool) (a : AlertRule) (db : RegistryDb)
      → valid_alert_kind a.kind ≡ true
      → bad_confirm (some a.confirm_after) ≡ false
      → AllFit db
      → (let r =
            if◌then◌else◌ {A = Result (Unit {0}) × RegistryDb} there
              (if channel_exists a.channel_id db
                then (ok tt, record db { alert_rules = set_rule a now db.alert_rules })
                else (err foreign_key_violation, db))
              (err alert_not_found, db) in
          AllFit r.1)
  AllFit-write false a db k c h = h
  AllFit-write true a db k c h = elim (Bool-cases (channel_exists a.channel_id db)) [
    | inl e ↦ rw e (AllFit-set_rule a now db.alert_channels db.alert_rules (e, k, c) h)
    | inr e ↦ rw e h
  ]

  written_rule-Stays :
      (r : AlertRule) (d : Decoded)
      → bad_confirm (some r.confirm_after) ≡ false
      → Hoare (λ s. Orderly s × Sane d) (update_rule sql now r d) (λ r. Orderly)
  unfolding update_alert_rule
  written_rule-Stays r (refused reply) c = Hoare-pure _ (λ s p. p.0)
  written_rule-Stays r (accepted i) c =
      Hoare-result (λ r. Orderly) _ _
        (Hoare-in_registry _ λ s.
          Hoare-update _
            (λ db p.
              AllFit-write (any (λ x. x.id == r.id) db.alert_rules) (changed_rule r i) db (p.1.0)
                (confirm_or-good r.confirm_after i.confirm_after c p.1.1) p.0)
            (λ e db p. p.0))
        (λ r. Hoare-pure _ (λ s p. p))

  found_rule-Found :
      (o : Option AlertRule) (p : AlertRule → Bool) (db : RegistryDb) (s : Server)
      → find p db.alert_rules ≡ o
      → AllFit db
      → Outcome
          (λ r t. Orderly t × (bad_confirm (some r.confirm_after) ≡ false))
          Orderly
          (found_rule o db).0
          (record s { registry = (found_rule o db).1 })
  found_rule-Found none p db s e h = h
  found_rule-Found (some r) p db s e h =
      (h, (found-IsFit p db.alert_channels db.alert_rules r e h).2)

  pub update_rule-Stays :
      (raw : Option ℤ) (body : Body RuleInput) → Stays (handle_update_rule sql now raw body)
  unfolding handle_update_rule get_alert_rule
  update_rule-Stays raw body = go (path_id raw)
    where
      found :
          (r : Result AlertRule)
          → Hoare
              (Outcome (λ r t. Orderly t × (bad_confirm (some r.confirm_after) ≡ false)) Orderly r)
              (update_found sql now body r)
              (λ r. Orderly)
      found (err e) = Hoare-pure _ (λ s p. p)
      found (ok r) = record {
        at = λ s fs p.
            (Hoare-bind (Outcome (λ d s. Orderly s × Sane d) Orderly) _ _ (decode_rule-Decodes body)
                (λ e s p. p) (λ d. written_rule-Stays r d (p.1))).at
              s fs p.0;
      }

      go : (o : Option ℕ) → Stays (update_rule_at sql now body o)
      go none = Hoare-pure _ (λ s p. p)
      go (some id) =
          Hoare-result _ _ _
            (Hoare-in_registry _ λ s.
              Hoare-update _
                (λ db p. found_rule-Found (find (λ r. r.id == id) db.alert_rules) _ db s refl p)
                (λ e db p. p))
            found
