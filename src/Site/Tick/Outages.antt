-- ===== src/Site/Tick/Outages.antt =====
-- The downtime of a site as a function of its whole check history: one outage for each maximal run
-- of failing ticks. It is what the incidents table is meant to hold.
use mathlib.Core.List.{append-nil}
use uptime_monitor_api.Base.{
  sym, ℕ, ◌≡◌, ◌≢◌, refl, ap, ◌∙◌, true, false, Option, none, some, All, List, [], ◌∷◌, ◌++◌,
  String, arith, if◌then◌else◌,
}
use uptime_monitor_api.Site.Tick.{Tick, null_string}

pub record Outage : Type 0 where
  pub started : ℕ
  pub ended : Option ℕ
  pub cause : Option String

abbrev pub begun : Tick → Outage
begun t = record { started = t.ts; ended = none; cause = null_string t.error }

unfoldable mutual
  -- from a state that is not down
  pub outages : List Tick → List Outage
  outages [] = []
  outages (t ∷ ts) = elim t.up [ true ↦ outages ts | false ↦ outage_of t ts ]

  -- in an outage that began with `t`
  pub outage_of : Tick → List Tick → List Outage
  outage_of t [] = begun t ∷ []
  outage_of t (u ∷ ts) = elim u.up [
    | true ↦ record { started = t.ts; ended = some u.ts; cause = null_string t.error } ∷ outages ts
    | false ↦ outage_of t ts
  ]

abbrev pub HasEnded : Outage → Type 0
HasEnded o = o.ended ≢ none

abbrev finish : ℕ → Outage → Outage
finish ts o = elim o.ended [ none ↦ record o { ended = some ts } | some e ↦ o ]

-- One more tick at the end of a history.
pub extend : List Outage → Tick → List Outage
extend [] t = if t.up then [] else begun t ∷ []
extend (o ∷ []) t =
    if t.up then finish t.ts o ∷ [] else elim o.ended [ none ↦ o ∷ [] | some e ↦ o ∷ begun t ∷ [] ]
extend (o ∷ p ∷ os) t = o ∷ extend (p ∷ os) t

extend-cons :
    (o : Outage) (os : List Outage) (t : Tick) → HasEnded o → extend (o ∷ os) t ≡ o ∷ extend os t
unfolding extend
extend-cons o [] t h = ground arith
extend-cons o (p ∷ os) t h = refl

extend-begun :
    (u t : Tick)
    → extend (begun u ∷ []) t ≡ (elim t.up [
      | true ↦ record { started = u.ts; ended = some t.ts; cause = null_string u.error } ∷ []
      | false ↦ begun u ∷ []
    ])
unfolding extend
extend-begun u t = ground arith

extend_nil : (t : Tick) → extend [] t ≡ (elim t.up [ true ↦ [] | false ↦ begun t ∷ [] ])
unfolding extend
extend_nil t = ground arith

mutual
  unfolding outages

  outages_snoc : (ts : List Tick) (t : Tick) → outages (ts ++ t ∷ []) ≡ extend (outages ts) t
  outages_snoc [] t = ground (arith, extend_nil t)
  outages_snoc (u ∷ ts) t = ground (arith, outages_snoc ts t, outage_of_snoc u ts t)

  outage_of_snoc :
      (u : Tick) (ts : List Tick) (t : Tick)
      → outage_of u (ts ++ t ∷ []) ≡ extend (outage_of u ts) t
  outage_of_snoc u [] t = ground (arith, extend-begun u t)
  outage_of_snoc u (v ∷ ts) t = ground (
    arith,
    outages_snoc ts t,
    outage_of_snoc u ts t,
    extend-cons (record { started = u.ts; ended = some v.ts; cause = null_string u.error })
        (outages ts) t,
  )

-- A history with one more tick.
pub outages-snoc : (ts : List Tick) (t : Tick) → outages (ts ++ t ∷ []) ≡ extend (outages ts) t
outages-snoc ts t = outages_snoc ts t

extend-append :
    (os ps : List Outage) (t : Tick) → All HasEnded os → extend (os ++ ps) t ≡ os ++ extend ps t
extend-append [] ps t h = refl
extend-append (o ∷ os) ps t (h, hs) =
    extend-cons o (os ++ ps) t h ∙ ap (λ l. o ∷ l) (extend-append os ps t hs)

-- The four ways to add a tick to outages of which at most the last has not ended.
module _ (os : List Outage) (t : Tick) (ended : All HasEnded os) where
  extend_calm_aux : (os : List Outage) → All HasEnded os → t.up ≡ true → extend os t ≡ os
  unfolding extend
  extend_calm_aux [] h u = ground arith
  extend_calm_aux (o ∷ []) h u = ground arith
  extend_calm_aux (o ∷ p ∷ os) h u = ap (λ l. o ∷ l) (extend_calm_aux (p ∷ os) h.1 u)

  pub extend_calm : t.up ≡ true → extend os t ≡ os
  extend_calm u = extend_calm_aux os ended u

  extend_nil_down : t.up ≡ false → extend [] t ≡ begun t ∷ []
  unfolding extend
  extend_nil_down d = ground arith

  pub extend_opened : t.up ≡ false → extend os t ≡ os ++ begun t ∷ []
  extend_opened d =
      ap (λ l. extend l t) (sym (append-nil os))
      ∙ extend-append os [] t ended
      ∙ ap (λ l. os ++ l) (extend_nil_down d)

module _ (os : List Outage) (o : Outage) (t : Tick) (ended : All HasEnded os)
    (ongoing : o.ended ≡ none) where
  extend_one_up : t.up ≡ true → extend (o ∷ []) t ≡ record o { ended = some t.ts } ∷ []
  unfolding extend
  extend_one_up u = ground arith

  extend_one_down : t.up ≡ false → extend (o ∷ []) t ≡ o ∷ []
  unfolding extend
  extend_one_down d = ground arith

  pub extend_closed :
      t.up ≡ true → extend (os ++ o ∷ []) t ≡ os ++ record o { ended = some t.ts } ∷ []
  extend_closed u = extend-append os (o ∷ []) t ended ∙ ap (λ l. os ++ l) (extend_one_up u)

  pub extend_failing : t.up ≡ false → extend (os ++ o ∷ []) t ≡ os ++ o ∷ []
  extend_failing d = extend-append os (o ∷ []) t ended ∙ ap (λ l. os ++ l) (extend_one_down d)
