-- ===== src/Monitor/Seeds.antt =====
-- cmd/monitor: the check loops that the daemon starts with.
use uptime_monitor_api.Base.{
  ◌≡◌, refl, ap, ◌∙◌, sym, Bool, true, false, ◌||◌, Option, none, some, List, [], ◌∷◌, String,
  if◌then◌else◌, Bool-cases, inl, inr, arith,
}
use uptime_monitor_api.Base.Text.{str_eq, eq_iff}
use uptime_monitor_api.Config.{SiteConfig, ChecksConfig}
use uptime_monitor_api.Db.{Result, ok, err}
use uptime_monitor_api.Registry.Tables.{SiteRow, RegistryDb}
use uptime_monitor_api.Registry.Sites.{
  Codec, has_site, scan_site, scan_sites, scan_found, insert_by_name, order_by_name, decoded,
  text_le,
}
use uptime_monitor_api.Registry.Monitored.{row_of, row_of-absent, enabled_site, monitored}
use uptime_monitor_api.Scheduler.Running.{Plan, plan_start, plan_start_all}

-- `id` is a PRIMARY KEY.
abbrev pub Distinct : List SiteRow → Type 0
Distinct [] = Unit
Distinct (r ∷ rs) = (has_site r.id rs ≡ false) × Distinct rs

row_of-insert :
    (r : SiteRow) (k : String) (rows : List SiteRow)
    → has_site r.id rows ≡ false
    → row_of k (insert_by_name r rows) ≡ (if str_eq r.id k then some r else row_of k rows)
unfolding insert_by_name
row_of-insert r k [] h = refl
row_of-insert r k (x ∷ xs) h =
    ground (arith, eq_iff r.id k, eq_iff x.id k, eq_iff x.id r.id, row_of-insert r k xs)

has_site-insert :
    (r : SiteRow) (k : String) (rows : List SiteRow)
    → has_site k (insert_by_name r rows) ≡ has_site k (r ∷ rows)
unfolding insert_by_name
has_site-insert r k [] = refl
has_site-insert r k (x ∷ xs) = ground (arith, has_site-insert r k xs)

Distinct-insert :
    (r : SiteRow) (rows : List SiteRow)
    → has_site r.id rows ≡ false
    → Distinct rows
    → Distinct (insert_by_name r rows)
unfolding insert_by_name
Distinct-insert r [] h d = (refl, tt)
Distinct-insert r (x ∷ xs) h d = elim (Bool-cases (text_le r.id x.id)) [
  | inl e ↦ rw e (h, d)
  | inr e ↦ rw e (
    has_site-insert r x.id xs ∙ ground (arith, eq_iff r.id x.id, eq_iff x.id r.id),
    Distinct-insert r xs (ground arith) d.1,
  )
]

has_site-order :
    (k : String) (rows : List SiteRow) → has_site k (order_by_name rows) ≡ has_site k rows
unfolding order_by_name
has_site-order k [] = refl
has_site-order k (r ∷ rs) =
    has_site-insert r k (order_by_name rs) ∙ ap (λ b. str_eq r.id k || b) (has_site-order k rs)

Distinct-order : (rows : List SiteRow) → Distinct rows → Distinct (order_by_name rows)
unfolding order_by_name
Distinct-order [] d = tt
Distinct-order (r ∷ rs) d =
    Distinct-insert r (order_by_name rs) (has_site-order r.id rs ∙ d.0) (Distinct-order rs d.1)

row_of-order :
    (k : String) (rows : List SiteRow)
    → Distinct rows
    → row_of k (order_by_name rows) ≡ row_of k rows
unfolding order_by_name
row_of-order k [] d = refl
row_of-order k (r ∷ rs) d =
    row_of-insert r k (order_by_name rs) (has_site-order r.id rs ∙ d.0)
    ∙ ap (λ o. if str_eq r.id k then some r else o) (row_of-order k rs d.1)

module _ (json : Codec) where
  scan_site-id : (r : SiteRow) (s : SiteConfig) → scan_site json r ≡ ok s → s.id ≡ r.id
  unfolding scan_site
  scan_site-id r s h = go (json.unmarshal r.checks_json) h
    where
      id_or : Result SiteConfig → String
      id_or (ok s) = s.id
      id_or (err e) = r.id

      go : (c : Option ChecksConfig) → decoded json r c ≡ ok s → s.id ≡ r.id
      go none e = absurd cc
      go (some c) e = sym (ap id_or e)

  Both : Result SiteConfig → Result (List SiteConfig) → List SiteConfig → Type 0
  Both x y sites =
      (s : SiteConfig) × (ss : List SiteConfig) × (x ≡ ok s) × (y ≡ ok ss) × (sites ≡ s ∷ ss)

  list_or : List SiteConfig → Result (List SiteConfig) → List SiteConfig
  list_or d (ok l) = l
  list_or d (err e) = d

  split_scan :
      (x : Result SiteConfig) (y : Result (List SiteConfig)) (sites : List SiteConfig)
      → (elim x as (λ _. Result (List SiteConfig)) [
        | err e ↦ err e
        | ok c ↦ elim y [ err e ↦ err e | ok cs ↦ ok (c ∷ cs) ]
      ])
        ≡ ok sites
      → Both x y sites
  unfolding Both list_or
  split_scan (err e) y sites h = absurd cc
  split_scan (ok c) (err e) sites h = absurd cc
  split_scan (ok c) (ok cs) sites h = (c, cs, refl, refl, sym (ap (list_or sites) h))

  abbrev enabled_or : Option SiteConfig → Result SiteConfig → Option SiteConfig
  enabled_or d (ok s) = if s.enabled then some s else d
  enabled_or d (err e) = d

  -- What a site's row makes of the plan before it.
  abbrev shown : Option SiteRow → Option SiteConfig → Option SiteConfig
  shown none d = d
  shown (some r) d = enabled_or d (scan_site json r)

  -- One step of `StartAll` at an id.
  plan_step-hit :
      (b : Bool) (s : SiteConfig) (f : Plan) (k : String)
      → str_eq s.id k ≡ true
      → (if b then plan_start s f else f) k ≡ (if b then some s else f k)
  plan_step-hit true s f k e = rw e refl
  plan_step-hit false s f k e = refl

  plan_step-miss :
      (b : Bool) (s : SiteConfig) (f : Plan) (k : String)
      → str_eq s.id k ≡ false
      → (if b then plan_start s f else f) k ≡ f k
  plan_step-miss true s f k e = rw e refl
  plan_step-miss false s f k e = refl

  plan_start_all-shown :
      (rows : List SiteRow) (sites : List SiteConfig) (f : Plan) (k : String)
      → scan_sites json rows ≡ ok sites
      → Distinct rows
      → plan_start_all sites f k ≡ shown (row_of k rows) (f k)
  unfolding list_or Both
  plan_start_all-shown [] sites f k h d = ap (λ l. plan_start_all (list_or sites l) f k) (sym h)
  plan_start_all-shown (r ∷ rs) sites f k h d =
      let (s, ss, p, q, e) = split_scan (scan_site json r) (scan_sites json rs) sites h in
      let id = scan_site-id r s p in
      ap (λ l. plan_start_all l f k) e
      ∙ plan_start_all-shown rs ss (if s.enabled then plan_start s f else f) k q d.1
      ∙ (elim (Bool-cases (str_eq r.id k)) [
        | inl m ↦
            ap (λ o. shown o ((if s.enabled then plan_start s f else f) k))
              (row_of-absent k rs (ap (λ j. has_site j rs) (sym ((eq_iff r.id k).0 m)) ∙ d.0))
            ∙ plan_step-hit s.enabled s f k (ap (λ j. str_eq j k) id ∙ m)
            ∙ sym (rw m (ap (enabled_or (f k)) p))
        | inr m ↦
            ap (shown (row_of k rs)) (plan_step-miss s.enabled s f k (ap (λ j. str_eq j k) id ∙ m))
            ∙ sym (rw m refl)
      ])

  shown-enabled : (o : Option SiteRow) → shown o none ≡ enabled_site (scan_found json o)
  shown-enabled none = refl
  shown-enabled (some r) = go (scan_site json r)
    where
      go : (x : Result SiteConfig) → enabled_or none x ≡ enabled_site x
      go (ok s) = refl
      go (err e) = refl

  -- `StartAll` of what `List` answers plans the enabled site of each id.
  pub plan_start_all-monitored :
      (db : RegistryDb) (sites : List SiteConfig) (k : String)
      → scan_sites json (order_by_name db.sites) ≡ ok sites
      → Distinct db.sites
      → plan_start_all sites (λ j. none) k ≡ monitored json db k
  plan_start_all-monitored db sites k h d =
      plan_start_all-shown (order_by_name db.sites) sites (λ j. none) k h
        (Distinct-order db.sites d)
      ∙ shown-enabled (row_of k (order_by_name db.sites))
      ∙ ap (λ o. enabled_site (scan_found json o)) (row_of-order k db.sites d)
