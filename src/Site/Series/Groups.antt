-- ===== src/Site/Series/Groups.antt =====
-- internal/storage/series.go: what one grouped SELECT and the loop over its rows do to the points.
use uptime_monitor_api.Base.{
  ℕ, zero, suc, ◌+◌, ◌≡◌, ◌<◌, ◌≤◌, refl, ap, ◌∙◌, sym, List, [], ◌∷◌, ◌==◌, Bool-cases, inl, inr,
  if◌then◌else◌, get_elem?, arith,
}
use uptime_monitor_api.Site.Tables.{ResultRow}
use uptime_monitor_api.Site.Series.{Point, in_bucket, if_any, groups, set_at, fill}
use mathlib.Core.Option.{map as map_option}

-- What a group does to its point: a key without a row has no group.
abbrev pub touched : (List ResultRow → Point → Point) → List ResultRow → Point → Point
touched f [] p = p
touched f (r ∷ rs) p = f (r ∷ rs) p

get_elem-set_at :
    (b i : ℕ) (f : Point → Point) (ps : List Point)
    → get_elem? (set_at b f ps) i
      ≡ (if b == i then map_option f (get_elem? ps i) else get_elem? ps i)
get_elem-set_at b i f [] = ground arith
get_elem-set_at zero zero f (p ∷ ps) = refl
get_elem-set_at zero (suc i) f (p ∷ ps) = ground arith
get_elem-set_at (suc b) zero f (p ∷ ps) = ground arith
get_elem-set_at (suc b) (suc i) f (p ∷ ps) = get_elem-set_at b i f ps ∙ ground arith

module _ (key : ResultRow → ℕ) (rows : List ResultRow) (f : List ResultRow → Point → Point) where
  set_at-same : (b : ℕ) (ps : List Point) → set_at b (touched f []) ps ≡ ps
  set_at-same b [] = refl
  set_at-same zero (p ∷ ps) = refl
  set_at-same (suc b) (p ∷ ps) = ap (λ qs. p ∷ qs) (set_at-same b ps)

  -- The keys from `b` on leave the points before `b` alone.
  fill-if_any :
      (b : ℕ) (g : List ResultRow) (gs : List (ℕ × List ResultRow)) (ps : List Point)
      → fill f (if_any g ((b, g) ∷ gs) gs) ps ≡ fill f gs (set_at b (touched f g) ps)
  unfolding fill
  fill-if_any b [] gs ps = ap (fill f gs) (sym (set_at-same b ps))
  fill-if_any b (r ∷ rs) gs ps = refl

  fill-below :
      (b left i : ℕ) (ps : List Point)
      → i < b
      → get_elem? (fill f (groups key rows b left) ps) i ≡ get_elem? ps i
  unfolding groups fill
  fill-below b zero i ps h = refl
  fill-below b (suc left) i ps h =
      ap (λ qs. get_elem? qs i)
        (fill-if_any b (in_bucket key b rows) (groups key rows (b + 1) left) ps)
      ∙ fill-below (b + 1) left i _ (omega arith)
      ∙ get_elem-set_at b i _ ps
      ∙ ground arith

  pub fill-groups :
      (b left i : ℕ) (ps : List Point)
      → b ≤ i
      → i < b + left
      → get_elem? (fill f (groups key rows b left) ps) i
        ≡ map_option (touched f (in_bucket key i rows)) (get_elem? ps i)
  unfolding groups fill
  fill-groups b zero i ps l h = absurd (omega arith)
  fill-groups b (suc left) i ps l h =
      ap (λ qs. get_elem? qs i)
        (fill-if_any b (in_bucket key b rows) (groups key rows (b + 1) left) ps)
      ∙ (elim (Bool-cases (b == i)) [
        | inl e ↦
            fill-below (b + 1) left i _ (ground arith)
            ∙ get_elem-set_at b i _ ps
            ∙ rw e (
                ap (λ k. map_option (touched f (in_bucket key k rows)) (get_elem? ps i))
                  (ground arith))
        | inr e ↦
            fill-groups (b + 1) left i _ (ground arith) (omega arith)
            ∙ ap (map_option (touched f (in_bucket key i rows)))
                (get_elem-set_at b i _ ps ∙ rw e refl)
      ])
