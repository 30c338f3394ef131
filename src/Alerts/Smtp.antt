-- ===== src/Alerts/Smtp.antt =====
-- internal/alerts/smtp.go: the configuration and the text of a message.
pub mod Header
pub mod Exchange
use uptime_monitor_api.Base.{
  ℕ, Bool, true, false, not, ◌&&◌, List, [], ◌∷◌, String, ◌==◌, if◌then◌else◌,
}
use uptime_monitor_api.Base.Int.{ℤ, pos, eqb_ℤ}
use uptime_monitor_api.Base.Text.{Char, code, of_code, contains, is_empty, join, ◌⧺◌, Unicode}
use uptime_monitor_api.Base.Decimal.{show_ℤ}

pub record SmtpConfig : Type 0 where
  pub host : String
  pub port : ℤ
  pub username : String
  pub password : String
  pub sender : String
  pub insecure_skip_verify : Bool

-- `Configured`
unfoldable pub configured : SmtpConfig → Bool
configured c = not (is_empty c.host) && not (is_empty c.sender)

-- The port of `Addr`.
unfoldable pub dial_port : SmtpConfig → ℤ
dial_port c = if eqb_ℤ c.port (pos 0) then pos 587 else c.port

-- strings.ReplaceAll of one character, by its code, by a blank.
unfoldable pub blanked : ℕ → String → String
unfolding of_code
blanked n String.[] = String.[]
blanked n (String.◌∷◌ c s) = String.◌∷◌ (if code c == n then of_code 32 else c) (blanked n s)

abbrev pub push_word : String → List String → List String
push_word w ws = if is_empty w then ws else w ∷ ws

-- The word at the start of a text, and the words behind it.
unfoldable pub words : (Char → Bool) → String → String × List String
words space String.[] = ("", [])
words space (String.◌∷◌ c s) =
    let (w, ws) = words space s in if space c then ("", push_word w ws) else (String.◌∷◌ c w, ws)

-- strings.Fields
unfoldable pub fields : (Char → Bool) → String → List String
unfolding words
fields space s = let (w, ws) = words space s in push_word w ws

-- `sanitiseHeader`
unfoldable pub sanitise_header : Unicode → String → String
unfolding blanked fields join
sanitise_header u v = join " " (fields u.space (blanked 10 (blanked 13 v)))

-- net.JoinHostPort
abbrev pub join_host_port : String → String → String
join_host_port host port = if contains host ":" then "[" ⧺ host ⧺ "]:" ⧺ port else host ⧺ ":" ⧺ port

-- `Addr`
unfoldable pub addr : SmtpConfig → String
unfolding dial_port
addr c = join_host_port c.host (show_ℤ (dial_port c))

-- strings.ReplaceAll of each CR LF by LF.
unfoldable pub lf_only : String → String
lf_only String.[] = String.[]
lf_only (String.◌∷◌ c String.[]) = String.◌∷◌ c String.[]
lf_only (String.◌∷◌ c (String.◌∷◌ d s)) =
    let rest = lf_only (String.◌∷◌ d s) in
    if code c == 13 && code d == 10 then rest else String.◌∷◌ c rest

-- strings.ReplaceAll of each LF by CR LF.
unfoldable pub crlf : String → String
unfolding of_code
crlf String.[] = String.[]
crlf (String.◌∷◌ c s) =
    let rest = crlf s in
    if code c == 10 then String.◌∷◌ (of_code 13) (String.◌∷◌ c rest) else String.◌∷◌ c rest

abbrev pub eol : String
unfolding of_code
eol = String.◌∷◌ (of_code 13) (String.◌∷◌ (of_code 10) String.[])

-- `buildMessage`, with the date that is written into it
unfoldable pub build_message : Unicode → (date from to subject body : String) → String
unfolding sanitise_header lf_only crlf eol
build_message u date from to subject body =
    "From: "
    ⧺ from
    ⧺ eol
    ⧺ "To: "
    ⧺ to
    ⧺ eol
    ⧺ "Subject: "
    ⧺ sanitise_header u subject
    ⧺ eol
    ⧺ "Date: "
    ⧺ date
    ⧺ eol
    ⧺ "MIME-Version: 1.0"
    ⧺ eol
    ⧺ "Content-Type: text/plain; charset=utf-8"
    ⧺ eol
    ⧺ "Auto-Submitted: auto-generated"
    ⧺ eol
    ⧺ eol
    ⧺ crlf (lf_only body)
