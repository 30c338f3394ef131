-- ===== src/Stores/Safe.antt =====
-- internal/storage/manager.go and internal/config/config.go: which ids reach the disk.
use uptime_monitor_api.Base.{◌≡◌, refl, Bool, true, false, String, arith}
use uptime_monitor_api.Base.Text.{str_eq, eq_iff, eq_refl, is_empty, trim_right}
use uptime_monitor_api.Config.Slug.{slug_from, is_slug}
use uptime_monitor_api.Stores.{is_slash, has_slash, has_separator, after_last_slash, base, safe_id}

slug_from-clean : (need : Bool) (s : String) → slug_from need s ≡ true → has_separator s ≡ false
unfolding slug_from has_separator
slug_from-clean need String.[] h = refl
slug_from-clean need (String.◌∷◌ c s) h =
    ground (arith, slug_from-clean false s, slug_from-clean true s)

separator-slash : (s : String) → has_separator s ≡ false → has_slash s ≡ false
unfolding has_separator has_slash
separator-slash String.[] h = refl
separator-slash (String.◌∷◌ c s) h = ground (arith, separator-slash s)

trim_right-clean : (s : String) → has_slash s ≡ false → trim_right is_slash s ≡ s
unfolding has_slash trim_right
trim_right-clean String.[] h = refl
trim_right-clean (String.◌∷◌ c s) h = ground (arith, trim_right-clean s)

after_last_slash-clean : (s : String) → has_slash s ≡ false → after_last_slash s ≡ s
unfolding has_slash after_last_slash
after_last_slash-clean String.[] h = refl
after_last_slash-clean (String.◌∷◌ c s) h = ground (arith, after_last_slash-clean s)

base-clean : (s : String) → is_empty s ≡ false → has_slash s ≡ false → base s ≡ s
unfolding base
base-clean s e h = ground (arith, trim_right-clean s h, after_last_slash-clean s h)

-- A text that the pattern refuses is not the one that it accepts.
apart : (s t : String) → slug_from true s ≡ true → slug_from true t ≡ false → str_eq s t ≡ false
apart s t h k = ground (arith, eq_iff s t)

slug_from-given : (s : String) → slug_from true s ≡ true → is_empty s ≡ false
unfolding slug_from
slug_from-given String.[] h = absurd cc
slug_from-given (String.◌∷◌ c s) h = refl

slug_from-not_dots :
    (s : String) → slug_from true s ≡ true → (str_eq s "." ≡ false) × (str_eq s ".." ≡ false)
unfolding slug_from
slug_from-not_dots s h = (apart s "." h refl, apart s ".." h refl)

-- Every id that the slug pattern accepts, and so every id that `Validate` lets through, is safe: its
-- file is one file name in the data directory.
pub is_slug-safe_id : (id : String) → is_slug id ≡ true → safe_id id ≡ true
unfolding is_slug safe_id
is_slug-safe_id id h =
    let some_char = slug_from-given id h in
    let (not_dot, not_dots) = slug_from-not_dots id h in
    let clean = slug_from-clean true id h in
    let same = base-clean id some_char (separator-slash id clean) in
    ground (arith, some_char, not_dot, not_dots, clean, same, eq_refl id)
