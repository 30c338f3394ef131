-- ===== src/Alerts/Smtp/Header.antt =====
-- Line breaks in the headers of a mail (internal/alerts/smtp.go).
use uptime_monitor_api.Base.{
  arith, inl, inr, ◌≡◌, refl, ℕ, Bool, true, false, ◌||◌, List, [], ◌∷◌, String, ◌==◌,
  if◌then◌else◌, Bool-cases, All,
}
use uptime_monitor_api.Base.Text.{Char, code, of_code, join, ◌⧺◌, Unicode}
use Prim.Native.String.append
use uptime_monitor_api.Alerts.Smtp.{blanked, push_word, words, fields, sanitise_header}

abbrev pub is_break : Char → Bool
is_break c = code c == 13 || code c == 10

-- A carriage return or a line feed.
abbrev pub has_break : String → Bool
has_break String.[] = false
has_break (String.◌∷◌ c s) = is_break c || has_break s

abbrev has_code : ℕ → String → Bool
has_code n String.[] = false
has_code n (String.◌∷◌ c s) = code c == n || has_code n s

abbrev Clean : String → Type 0
Clean s = has_break s ≡ false

blank-Clean :
    (c : Char)
    → is_break (
        if code (if code c == 13 then of_code 32 else c) == 10
        then of_code 32
        else (if code c == 13 then of_code 32 else c))
      ≡ false
unfolding of_code
blank-Clean c = elim (Bool-cases (code c == 13)) [
  | inl cr ↦ rw cr refl
  | inr not_cr ↦ elim (Bool-cases (code c == 10)) [
    | inl lf ↦ rw (not_cr, lf) refl
    | inr not_lf ↦ rw (not_cr, not_lf) (rw (not_cr, not_lf) refl)
  ]
]

or-false : (a b : Bool) → a ≡ false → b ≡ false → (a || b) ≡ false
or-false a b p q = ground arith

blanked-Clean : (v : String) → Clean (blanked 10 (blanked 13 v))
unfolding blanked of_code
blanked-Clean String.[] = refl
blanked-Clean (String.◌∷◌ c s) = or-false _ _ (blank-Clean c) (blanked-Clean s)

push_word-Clean :
    (w : String) (ws : List String) → Clean w → All Clean ws → All Clean (push_word w ws)
push_word-Clean String.[] ws h k = k
push_word-Clean (String.◌∷◌ c w) ws h k = (h, k)

CleanWords : String × List String → Type 0
CleanWords (w, ws) = Clean w × All Clean ws

words-Clean : (space : Char → Bool) (s : String) → Clean s → CleanWords (words space s)
unfolding words CleanWords
words-Clean space String.[] h = (refl, tt)
words-Clean space (String.◌∷◌ c s) h =
    split (space c) (ground arith) (words space s) (words-Clean space s (ground arith))
  where
    split :
        (b : Bool)
        → is_break c ≡ false
        → (rest : String × List String) → CleanWords rest
        → CleanWords (if b then ("", push_word rest.0 rest.1) else (String.◌∷◌ c rest.0, rest.1))
    split true q (w, ws) (h, k) = (refl, push_word-Clean w ws h k)
    split false q (w, ws) (h, k) = (or-false _ _ q h, k)

append-Clean : (s t : String) → Clean s → Clean t → Clean (s ⧺ t)
append-Clean String.[] t h k = rw (append.nil t) k
append-Clean (String.◌∷◌ c s) t h k =
    rw (append.cons c s t)
      (or-false (is_break c) (has_break (s ⧺ t)) (ground arith) (append-Clean s t (ground arith) k))

join-Clean : (ws : List String) → All Clean ws → Clean (join " " ws)
unfolding join
join-Clean [] h = refl
join-Clean (w ∷ []) h = h.0
join-Clean (w ∷ v ∷ ws) (h, k) =
    append-Clean w _ h (append-Clean " " (join " " (v ∷ ws)) refl (join-Clean (v ∷ ws) k))

-- Whatever the site's name in it, the subject that `sanitiseHeader` returns holds neither a carriage
-- return nor a line feed, so that it cannot end its header line.
pub sanitise_header-unbroken : (u : Unicode) (v : String) → has_break (sanitise_header u v) ≡ false
unfolding sanitise_header fields CleanWords
sanitise_header-unbroken u v =
    let (h, k) = words-Clean u.space (blanked 10 (blanked 13 v)) (blanked-Clean v) in
    let (w, ws) = words u.space (blanked 10 (blanked 13 v)) in
    join-Clean (push_word w ws) (push_word-Clean w ws h k)
