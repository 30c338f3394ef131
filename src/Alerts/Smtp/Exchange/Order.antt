-- ===== src/Alerts/Smtp/Exchange/Order.antt =====
-- internal/alerts/smtp.go: the commands of `Send` against the ones that a delivery takes.
use mathlib.Core.List.{append-nil}
use uptime_monitor_api.Base.{
  ◌≡◌, refl, sym, ap, ◌∙◌, Bool, true, false, ◌||◌, List, [], ◌∷◌, ◌++◌, String, arith,
}
use uptime_monitor_api.Base.Text.{is_empty, Unicode}
use uptime_monitor_api.Db.{Result, ok, err, Faults}
use uptime_monitor_api.Db.Hoare.{Hoare, Outcome, Hoare-raise, Hoare-query, Hoare-if}
use uptime_monitor_api.Alerts.Smtp.{SmtpConfig, configured, build_message}
use uptime_monitor_api.Alerts.Smtp.Exchange.{
  greets, mails_from, rcpts_to, opens_data, Wire, new_wire, is_implicit_tls, dial, send_mail,
}
use uptime_monitor_api.Alerts.Smtp.Exchange.Stages.{
  Step, exposed, opening, identity, ending, session, Stage, Stopped, say-Goes, then-Goes, dial-Goes,
  upgrade-Goes, identify-Goes, envelope-Goes,
}

any-append : (xs ys : List Step) → exposed (xs ++ ys) ≡ exposed xs || exposed ys
any-append [] ys = refl
any-append (x ∷ xs) ys = ground (arith, any-append xs ys)

session-unexposed : (c : SmtpConfig) (to message : String) → exposed (session c to message) ≡ false
session-unexposed c to message = go (is_implicit_tls c) (is_empty c.username)
  where
    go :
        (tls anonymous : Bool)
        → exposed (
            opening tls (
              identity anonymous c.username c.password
              ++ (true, mails_from c.sender)
                ∷ (true, rcpts_to to)
                ∷ (true, opens_data)
                ∷ ending message))
          ≡ false
    go true true = refl
    go true false = refl
    go false true = refl
    go false false = refl

part-unexposed : (xs ys : List Step) → exposed (xs ++ ys) ≡ false → exposed xs ≡ false
part-unexposed xs ys e = let h = any-append xs ys in ground arith

send_mail-Goes :
    (u : Unicode) (c : SmtpConfig) (date to subject body : String)
    → (let plan = session c to (build_message u date c.sender to subject body) in
        Hoare
          (Stage plan false plan)
          (send_mail u c date to subject body)
          (Outcome (λ a. Stage plan true []) (Stopped plan)))
unfolding send_mail dial
send_mail-Goes u c date to subject body =
    let message = build_message u date c.sender to subject body in
    let plan = session c to message in
    let tls = is_implicit_tls c in
    Hoare-if (configured c)
      (λ e.
        Hoare-if (is_empty to) (λ e. Hoare-raise _ (λ w p. (_, p.1)))
          (λ e. then-Goes plan false tls true plan _ [] _ _ (dial-Goes plan tls _ _ _) (
            then-Goes plan tls tls true _ _ [] _ _ (Hoare-query _ (λ w p. p) (λ e w p. (_, p.1))) (
              then-Goes plan tls tls true _ _ [] _ _ (say-Goes plan _ tls greets _) (
                then-Goes plan tls true true _ _ [] _ _ (upgrade-Goes plan c _) (
                  then-Goes plan true true true _ _ [] _ _ (identify-Goes plan c _)
                    (envelope-Goes plan c to message)))))))
      (λ e. Hoare-raise _ (λ w p. (_, p.1)))

abbrev pub InOrder : List Step → Result (Unit {0}) → Wire → Type 0
InOrder plan r w = Outcome (λ a w. w.given ≡ plan) (Stopped plan) r w × (exposed w.given ≡ false)

Goes-InOrder :
    (plan : List Step) (r : Result (Unit {0})) (w : Wire)
    → exposed plan ≡ false
    → Outcome (λ a. Stage plan true []) (Stopped plan) r w
    → InOrder plan r w
Goes-InOrder plan (ok a) w e (s, p) = let q = sym (append-nil w.given) ∙ p in (q, ap exposed q ∙ e)
Goes-InOrder plan (err x) w e (rest, p) =
    ((rest, p), part-unexposed w.given rest (ap exposed p ∙ e))

-- Every delivery is the first part of one session, whatever the network and the mail server do: the
-- commands that `Send` has given are a first part of dial, greeting, STARTTLS unless the port is 465,
-- the account where there is one, sender, recipient and message, and they are all of it when it
-- answers no error. None that carries the account, the addresses or the message is given before the
-- connection is encrypted.
pub send_mail-InOrder :
    (u : Unicode) (c : SmtpConfig) (date to subject body : String) (offers : Bool) (fs : Faults)
    → let out = send_mail u c date to subject body (new_wire offers) fs in
      InOrder (session c to (build_message u date c.sender to subject body)) out.0 out.1
send_mail-InOrder u c date to subject body offers fs =
    Goes-InOrder _ _ _ (session-unexposed c to _)
      ((send_mail-Goes u c date to subject body).at (new_wire offers) fs (refl, refl))
