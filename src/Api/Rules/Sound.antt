-- ===== src/Api/Rules/Sound.antt =====
-- internal/storage/alerts.go: the rules that make sense, and the writes of rules and channels.
use uptime_monitor_api.Base.{
  ℕ, ◌≡◌, refl, ap, sym, subst, ◌∙◌, Bool, true, false, not, none, some, List, [], ◌∷◌, ◌++◌, ◌==◌,
  any, find, filter, if◌then◌else◌, All, All-append, All-filter, arith, Bool-cases, inl, inr,
}
use uptime_monitor_api.Db.{Sqlite}
use uptime_monitor_api.Registry.Tables.{AlertChannel, AlertRule, RegistryDb}
use uptime_monitor_api.Registry.Channels.{insert_channel, set_channel, drop_channel}
use uptime_monitor_api.Registry.Rules.{channel_exists, insert_rule, set_rule}
use uptime_monitor_api.Api.Rules.{valid_alert_kind, bad_confirm}

abbrev pub has_id : ℕ → List AlertChannel → Bool
has_id id cs = any (λ c. c.id == id) cs

-- The rule's channel exists, its kind is one of the three, and its threshold lies within 1 and 100.
abbrev pub IsFit : List AlertChannel → AlertRule → Type 0
IsFit cs r =
    (has_id r.channel_id cs ≡ true)
    × (valid_alert_kind r.kind ≡ true)
    × (bad_confirm (some r.confirm_after) ≡ false)

abbrev pub AllFit : RegistryDb → Type 0
AllFit db = All (IsFit db.alert_channels) db.alert_rules

All-weaken :
    (P Q : AlertRule → Type 0) (rs : List AlertRule)
    → ((r : AlertRule) → P r → Q r)
    → All P rs
    → All Q rs
All-weaken P Q [] f h = tt
All-weaken P Q (r ∷ rs) f h = (f r h.0, All-weaken P Q rs f h.1)

has_id-append :
    (id : ℕ) (c : AlertChannel) (cs : List AlertChannel)
    → has_id id cs ≡ true
    → has_id id (cs ++ c ∷ []) ≡ true
has_id-append id c [] h = absurd cc
has_id-append id c (x ∷ xs) h = ground (arith, has_id-append id c xs)

has_id-set_channel :
    (c : AlertChannel) (now id : ℕ) (cs : List AlertChannel)
    → has_id id (set_channel c now cs) ≡ has_id id cs
has_id-set_channel c now id [] = refl
has_id-set_channel c now id (x ∷ xs) = ground (arith, has_id-set_channel c now id xs)

has_id-filter :
    (dead id : ℕ) (cs : List AlertChannel)
    → (id == dead) ≡ false
    → has_id id cs ≡ true
    → has_id id (filter (λ c. not (c.id == dead)) cs) ≡ true
has_id-filter dead id [] e h = h
has_id-filter dead id (x ∷ xs) e h = ground (arith, has_id-filter dead id xs)

module _ (cs ds : List AlertChannel) where
  -- Rules stay fit when the channels that they name stay.
  pub AllFit-channels :
      (rs : List AlertRule)
      → ((id : ℕ) → has_id id cs ≡ true → has_id id ds ≡ true)
      → All (IsFit cs) rs
      → All (IsFit ds) rs
  AllFit-channels rs f h =
      All-weaken (IsFit cs) (IsFit ds) rs (λ r p. (f r.channel_id p.0, p.1, p.2)) h

pub AllFit-insert_channel :
    (sql : Sqlite) (c : AlertChannel) (now : ℕ) (db : RegistryDb)
    → AllFit db
    → AllFit (insert_channel sql c now db).1
AllFit-insert_channel sql c now db h =
    AllFit-channels db.alert_channels _ db.alert_rules
      (λ id p. has_id-append id _ db.alert_channels p) h

pub AllFit-set_channel :
    (c : AlertChannel) (now : ℕ) (db : RegistryDb)
    → AllFit db
    → AllFit (record db { alert_channels = set_channel c now db.alert_channels })
AllFit-set_channel c now db h =
    AllFit-channels db.alert_channels _ db.alert_rules
      (λ id p. rw (has_id-set_channel c now id db.alert_channels) p) h

dropped-IsFit :
    (dead : ℕ) (cs : List AlertChannel) (rs : List AlertRule)
    → All (IsFit cs) rs
    → All
        (IsFit (filter (λ c. not (c.id == dead)) cs))
        (filter (λ r. not (r.channel_id == dead)) rs)
dropped-IsFit dead cs [] h = tt
dropped-IsFit dead cs (r ∷ rs) h = elim (Bool-cases (r.channel_id == dead)) [
  | inl e ↦ rw e (dropped-IsFit dead cs rs h.1)
  | inr e ↦
      rw e
        ((has_id-filter dead r.channel_id cs e h.0.0, h.0.1, h.0.2), dropped-IsFit dead cs rs h.1)
]

pub AllFit-drop_channel : (id : ℕ) (db : RegistryDb) → AllFit db → AllFit (drop_channel id db)
AllFit-drop_channel id db h = dropped-IsFit id db.alert_channels db.alert_rules h

pub AllFit-insert_rule :
    (sql : Sqlite) (r : AlertRule) (now : ℕ) (db : RegistryDb)
    → valid_alert_kind r.kind ≡ true
    → bad_confirm (some r.confirm_after) ≡ false
    → AllFit db
    → AllFit (insert_rule sql r now db).1
AllFit-insert_rule sql r now db k c h = elim (Bool-cases (channel_exists r.channel_id db)) [
  | inl e ↦ rw e (All-append _ db.alert_rules _ h ((e, k, c), tt))
  | inr e ↦ rw e h
]

pub AllFit-set_rule :
    (a : AlertRule) (now : ℕ) (cs : List AlertChannel) (rs : List AlertRule)
    → IsFit cs a
    → All (IsFit cs) rs
    → All (IsFit cs) (set_rule a now rs)
AllFit-set_rule a now cs [] f h = tt
AllFit-set_rule a now cs (r ∷ rs) f h = elim (Bool-cases (r.id == a.id)) [
  | inl e ↦ rw e (f, AllFit-set_rule a now cs rs f h.1)
  | inr e ↦ rw e (h.0, AllFit-set_rule a now cs rs f h.1)
]

pub AllFit-filter :
    (p : AlertRule → Bool) (db : RegistryDb)
    → AllFit db
    → AllFit (record db { alert_rules = filter p db.alert_rules })
AllFit-filter p db h = All-filter (IsFit db.alert_channels) p db.alert_rules h

some-inj : {A : Type 0} {x y : A} → some x ≡ some y → x ≡ y
some-inj {A} {x} e = ap (λ o. elim o as (λ _. A) [ none ↦ x | some z ↦ z ]) e

-- A rule that is found is one of them.
pub found-IsFit :
    (p : AlertRule → Bool) (cs : List AlertChannel) (rs : List AlertRule) (r : AlertRule)
    → find p rs ≡ some r
    → All (IsFit cs) rs
    → IsFit cs r
found-IsFit p cs [] r e h = absurd cc
found-IsFit p cs (x ∷ xs) r e h = elim (Bool-cases (p x)) [
  | inl b ↦ subst (IsFit cs) (some-inj (sym (ap (λ c. if c then some x else find p xs) b) ∙ e)) h.0
  | inr b ↦ found-IsFit p cs xs r (sym (ap (λ c. if c then some x else find p xs) b) ∙ e) h.1
]
