-- ===== src/Config/Slug/Laws.antt =====
-- What `Slugify` makes is empty or matches `slugRe`.
use uptime_monitor_api.Base.{
  ◌≡◌, refl, sym, subst, ◌⊎◌, inl, inr, Bool, true, false, Bool-cases, ◌&&◌, String, arith,
  if◌then◌else◌,
}
use uptime_monitor_api.Base.Text.{
  Char, is_empty, Unicode, trim_space, to_lower, trim_left, trim_right,
}
use uptime_monitor_api.Config.Slug.{slug_char, is_dash, dash, collapse, slugify, slug_from, is_slug}

-- `slug_from`, but the text may end in a dash.
abbrev loose : Bool → String → Bool
loose need String.[] = true
loose need (String.◌∷◌ c s) =
    if slug_char c then loose false s else if need then false else is_dash c && loose true s

slug_char-not_dash : (c : Char) → slug_char c ≡ true → is_dash c ≡ false
slug_char-not_dash c h = ground arith

collapse-loose : (in_run : Bool) (s : String) → loose in_run (collapse in_run s) ≡ true
unfolding collapse dash
collapse-loose in_run String.[] = refl
collapse-loose in_run (String.◌∷◌ c s) = elim (Bool-cases (slug_char c)) [
  | inl e ↦ rw (e, e) (collapse-loose false s)
  | inr e ↦ elim (Bool-cases in_run) [
    | inl r ↦ rw (e, r) (collapse-loose true s)
    | inr r ↦ rw (e, r) (collapse-loose true s)
  ]
]

trim_left-loose-true : (s : String) → loose true s ≡ true → loose true (trim_left is_dash s) ≡ true
unfolding trim_left
trim_left-loose-true String.[] h = refl
trim_left-loose-true (String.◌∷◌ c s) h = ground (arith, slug_char-not_dash c)

trim_left-loose : (s : String) → loose false s ≡ true → loose true (trim_left is_dash s) ≡ true
unfolding trim_left
trim_left-loose String.[] h = refl
trim_left-loose (String.◌∷◌ c s) h = ground (arith, slug_char-not_dash c, trim_left-loose-true s)

abbrev Trimmed : Bool → String → Type 0
Trimmed need r = (is_empty r ≡ true) ⊎ (slug_from need r ≡ true)

trim_right_char :
    (need : Bool) (c : Char) (r : String)
    → slug_char c ≡ true
    → Trimmed false r
    → Trimmed need (if is_empty r && is_dash c then String.[] else String.◌∷◌ c r)
unfolding slug_from
trim_right_char need c String.[] e t = ground (arith, slug_char-not_dash c)
trim_right_char need c (String.◌∷◌ d r) e t = ground arith

trim_right_dash :
    (c : Char) (r : String)
    → slug_char c ≡ false
    → is_dash c ≡ true
    → Trimmed true r
    → Trimmed false (if is_empty r && is_dash c then String.[] else String.◌∷◌ c r)
unfolding slug_from
trim_right_dash c String.[] e d t = rw d (inl refl)
trim_right_dash c (String.◌∷◌ x r) e d t = ground arith

trim_right-Trimmed :
    (need : Bool) (s : String) → loose need s ≡ true → Trimmed need (trim_right is_dash s)
unfolding trim_right
trim_right-Trimmed need String.[] h = inl refl
trim_right-Trimmed need (String.◌∷◌ c s) h = elim (Bool-cases (slug_char c)) [
  | inl e ↦
      trim_right_char need c (trim_right is_dash s) e (trim_right-Trimmed false s (ground arith))
  | inr e ↦
      let not_needed : need ≡ false = ground arith in
      let rest : loose true s ≡ true = ground arith in
      let a_dash : is_dash c ≡ true = ground arith in
      subst (λ n. Trimmed n (trim_right is_dash (String.◌∷◌ c s))) (sym not_needed)
        (trim_right_dash c (trim_right is_dash s) e a_dash (trim_right-Trimmed true s rest))
]

-- Whatever the text and the Unicode tables, the id that `Slugify` makes of it is empty or a slug.
pub slugify-is_slug :
    (u : Unicode) (s : String) → (is_empty (slugify u s) ≡ true) ⊎ (is_slug (slugify u s) ≡ true)
unfolding slugify is_slug
slugify-is_slug u s =
    let tidy = collapse false (to_lower u (trim_space u s)) in
    trim_right-Trimmed true (trim_left is_dash tidy)
      (trim_left-loose tidy (collapse-loose false (to_lower u (trim_space u s))))
