-- ===== src/Base/Text.antt =====
-- Texts: equality tests, joining, decimal numerals, and the character tests that the source uses.
use Prim.Native.Nat.{ℕ, ◌<◌, compare, Ordering}
use Prim.Native.Char.{char, IsScalar, nul}
use Prim.Native.String.{String, ◌++◌}
use mathlib.Core.Path.{◌≡◌}
use mathlib.Core.Logic.{dite}
use mathlib.Core.Bool.{Bool, true, false, ◌||◌, ◌&&◌}
use mathlib.Core.List.{List, [], ◌∷◌}
use native.Mathlib.Omega.{arith}
use native.Mathlib.Decide.{dec_lt}
use uptime_monitor_api.Base.Tests.{if◌then◌else◌}
pub use Prim.Native.Char.{Char, code}
pub use Prim.Native.String.{◌++◌ as ◌⧺◌}
pub use text.Mathlib.Text.{◌==◌ as str_eq, starts_with}
pub use text.Mathlib.TextEquality.{eq_iff}
pub use text.Mathlib.TextPositions.{eq_refl}

IsScalar_of_lt : (n : ℕ) → n < 55296 → IsScalar n
IsScalar_of_lt n h = rw (compare_lt n 55296 h) tt
  where
    compare_lt : (a b : ℕ) → a < b → compare a b ≡ Ordering.lt
    compare_lt a b h = ground arith

-- The ASCII character of a code.
unfoldable pub of_code : ℕ → Char
unfolding dec_lt IsScalar_of_lt
of_code n = dite (dec_lt n 128) (λ h. char n (IsScalar_of_lt n (omega arith))) (λ _. nul)

-- `s == ""`
abbrev pub is_empty : String → Bool
is_empty String.[] = true
is_empty (String.◌∷◌ c s) = false

-- strings.Contains
unfoldable pub contains : String → String → Bool
contains String.[] t = is_empty t
contains (String.◌∷◌ c s) t = let later = contains s t in starts_with (String.◌∷◌ c s) t || later

-- strings.Join
unfoldable pub join : String → List String → String
join sep [] = ""
join sep (s ∷ []) = s
join sep (s ∷ t ∷ ss) = s ++ sep ++ join sep (t ∷ ss)

-- The tables of package unicode, which the repository takes from the standard library:
-- `unicode.ToLower` and `unicode.IsSpace`.
pub record Unicode : Type 0 where
  pub lower : Char → Char
  pub space : Char → Bool

-- strings.TrimLeftFunc
unfoldable pub trim_left : (Char → Bool) → String → String
trim_left p String.[] = String.[]
trim_left p (String.◌∷◌ c s) = if p c then trim_left p s else String.◌∷◌ c s

-- strings.TrimRightFunc: a character stays if it does not match or one behind it stays.
unfoldable pub trim_right : (Char → Bool) → String → String
trim_right p String.[] = String.[]
trim_right p (String.◌∷◌ c s) =
    let r = trim_right p s in if is_empty r && p c then String.[] else String.◌∷◌ c r

-- strings.TrimSpace
unfoldable pub trim_space : Unicode → String → String
unfolding trim_left trim_right
trim_space u s = trim_right u.space (trim_left u.space s)

-- strings.ToLower
unfoldable pub to_lower : Unicode → String → String
to_lower u String.[] = String.[]
to_lower u (String.◌∷◌ c s) = String.◌∷◌ (u.lower c) (to_lower u s)
