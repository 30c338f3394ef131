-- ===== src/Alerts/Smtp/Exchange.antt =====
-- internal/alerts/smtp.go: `Send`, as the commands that it gives the connection. Each of them may
-- fail; a command that fails counts as given, since its bytes may have left.
pub mod Stages
pub mod Order
use uptime_monitor_api.Base.{
  ℕ, Bool, true, false, Option, none, some, List, [], ◌∷◌, ◌++◌, String, if◌then◌else◌,
}
use uptime_monitor_api.Base.Int.{pos, eqb_ℤ}
use uptime_monitor_api.Base.Text.{is_empty, ◌⧺◌, Unicode}
use uptime_monitor_api.Db.{
  Exec, Result, ok, err, Error, error_text, plain, pure, raise, ◌>>=◌, query, attempt,
  attempt_result, fault, after,
}
use uptime_monitor_api.Alerts.Smtp.{SmtpConfig, configured, addr, build_message}

pub data Command : Type 0 where
  dials_tls dials_clear greets asks_starttls starts_tls : Command
  authenticates : (username password : String) → Command
  mails_from rcpts_to writes : String → Command
  opens_data ends_data quits : Command

-- The commands that were given, each with whether the connection was encrypted then.
pub record Wire : Type 0 where
  pub offers_starttls : Bool
  pub secured : Bool
  pub given : List (Bool × Command)

abbrev pub new_wire : Bool → Wire
new_wire offers = record { offers_starttls = offers; secured = false; given = [] }

abbrev pub noted : Command → Wire → Wire
noted c w = record w { given = w.given ++ (w.secured, c) ∷ [] }

-- fmt.Errorf with a text and %w
abbrev pub wrapped : String → Error → Error
wrapped what e = plain (what ⧺ ": " ⧺ error_text e)

unfoldable pub say : (Error → Error) → Command → Exec Wire (Unit {0})
unfolding fault after
say f c w fs = elim (fault fs) [
  | none ↦ (ok tt, noted c w, after fs)
  | some e ↦ (err (f e), noted c w, after fs)
]

unfoldable pub secure : Exec Wire (Unit {0})
secure w fs = (ok tt, record w { secured = true }, fs)

abbrev pub offered : Result (Unit {0}) → Exec Wire Bool
offered (err e) w fs = (ok false, w, fs)
offered (ok _) w fs = (ok w.offers_starttls, w, fs)

-- `Extension`, whose error is dropped
unfoldable pub extension : Exec Wire Bool
unfolding say
extension = attempt_result (say (λ e. e) asks_starttls) >>= offered

abbrev pub is_implicit_tls : SmtpConfig → Bool
is_implicit_tls c = eqb_ℤ c.port (pos 465)

unfoldable pub dial : SmtpConfig → Exec Wire (Unit {0})
unfolding say secure addr
dial c =
    if is_implicit_tls c
    then (say (wrapped ("dial " ⧺ addr c)) dials_tls >>= λ _. secure)
    else say (wrapped ("dial " ⧺ addr c)) dials_clear

abbrev pub upgraded : Bool → Exec Wire (Unit {0})
unfolding say secure
upgraded true = say (wrapped "starttls") starts_tls >>= λ _. secure
upgraded false =
    raise (plain "server does not offer STARTTLS; refusing to send credentials in clear")

unfoldable pub upgrade : SmtpConfig → Exec Wire (Unit {0})
unfolding extension
upgrade c = if is_implicit_tls c then pure tt else extension >>= upgraded

unfoldable pub identify : SmtpConfig → Exec Wire (Unit {0})
unfolding say
identify c =
    if is_empty c.username
    then pure tt
    else say (wrapped "smtp auth") (authenticates c.username c.password)

-- A body that cannot be written is ended all the same.
abbrev pub written : Result (Unit {0}) → Exec Wire (Unit {0})
unfolding say
written (ok _) = say (wrapped "close body") ends_data
written (err e) = attempt (say (λ x. x) ends_data) >>= λ _. raise e

unfoldable pub write_body : String → Exec Wire (Unit {0})
unfolding say
write_body message = attempt_result (say (wrapped "write body") (writes message)) >>= written

unfoldable pub envelope : SmtpConfig → (to message : String) → Exec Wire (Unit {0})
unfolding say write_body
envelope c to message = say (wrapped "mail from") (mails_from c.sender) >>= λ _.
    say (wrapped ("rcpt to " ⧺ to)) (rcpts_to to) >>= λ _.
    say (wrapped "data") opens_data >>= λ _. write_body message >>= λ _. say (λ e. e) quits

-- `Send`; setting the deadline may fail too.
unfoldable pub send_mail :
    Unicode → SmtpConfig → (date to subject body : String) → Exec Wire (Unit {0})
unfolding dial say upgrade identify envelope build_message configured
send_mail u c date to subject body =
    if configured c
    then if is_empty to
      then raise (plain "no recipient")
      else (dial c >>= λ _. query (λ w. tt) >>= λ _. say (wrapped "smtp handshake") greets >>= λ _.
          upgrade c >>= λ _.
          identify c >>= λ _. envelope c to (build_message u date c.sender to subject body))
    else raise (plain "smtp is not configured (set UPTIME_SMTP_HOST and UPTIME_SMTP_FROM)")
