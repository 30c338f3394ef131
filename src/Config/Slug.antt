-- ===== src/Config/Slug.antt =====
-- `Slugify` and `slugRe`: ids that are safe in a file name and in a URL.
pub mod Laws
use uptime_monitor_api.Base.{
  ℕ, Bool, true, false, not, ◌&&◌, ◌||◌, String, leb, ◌==◌, if◌then◌else◌,
}
use uptime_monitor_api.Base.Text.{
  Char, code, of_code, is_empty, Unicode, trim_space, to_lower, trim_left, trim_right,
}

-- [a-z0-9]
abbrev pub slug_char : Char → Bool
slug_char c = leb b'a' (code c) && leb (code c) b'z' || leb b'0' (code c) && leb (code c) b'9'

abbrev pub is_dash : Char → Bool
is_dash c = code c == b'-'

abbrev pub dash : Char
unfolding of_code
dash = of_code b'-'

-- `nonSlugChar.ReplaceAllString(s, "-")`; `in_run` says that the run's dash is written.
unfoldable pub collapse : Bool → String → String
collapse in_run String.[] = String.[]
collapse in_run (String.◌∷◌ c s) =
    let kept = String.◌∷◌ c (collapse false s) in
    let rest = collapse true s in
    if slug_char c then kept else if in_run then rest else String.◌∷◌ dash rest

-- `Slugify`
unfoldable pub slugify : Unicode → String → String
unfolding collapse trim_left trim_right trim_space to_lower
slugify unicode s =
    trim_right is_dash
      (trim_left is_dash (collapse false (to_lower unicode (trim_space unicode s))))

-- `slugRe.MatchString`, `^[a-z0-9]+(?:-[a-z0-9]+)*$`, as its automaton: `need` says that the next
-- character must be a letter or a digit.
unfoldable pub slug_from : Bool → String → Bool
slug_from need String.[] = not need
slug_from need (String.◌∷◌ c s) =
    let after_char = slug_from false s in
    let after_dash = slug_from true s in
    if slug_char c then after_char else if need then false else is_dash c && after_dash

unfoldable pub is_slug : String → Bool
unfolding slug_from
is_slug s = slug_from true s
