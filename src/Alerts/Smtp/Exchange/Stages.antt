-- ===== src/Alerts/Smtp/Exchange/Stages.antt =====
-- internal/alerts/smtp.go: the commands of a delivery, and what each part of `Send` leaves of them.
use mathlib.Core.List.{append_assoc}
use uptime_monitor_api.Base.{
  ◌≡◌, refl, ap, ◌∙◌, Bool, true, false, not, ◌&&◌, Option, none, some, List, [], ◌∷◌, ◌++◌, String,
  if◌then◌else◌, any,
}
use uptime_monitor_api.Base.Text.{is_empty}
use uptime_monitor_api.Db.{Exec, Result, ok, err, Error, Faults, fault, after, pure, ◌>>=◌}
use uptime_monitor_api.Db.Hoare.{
  Hoare, Outcome, Hoare-pure, Hoare-raise, Hoare-bind, Hoare-result, Hoare-forget, Hoare-weaken,
}
use uptime_monitor_api.Alerts.Smtp.{SmtpConfig}
use uptime_monitor_api.Alerts.Smtp.Exchange.{
  Command, dials_tls, dials_clear, greets, asks_starttls, starts_tls, authenticates, mails_from,
  rcpts_to, writes, opens_data, ends_data, quits, Wire, noted, say, secure, offered, extension,
  is_implicit_tls, upgraded, upgrade, identify, written, write_body, envelope, wrapped,
}

abbrev pub Step : Type 0
Step = Bool × Command

-- The commands that carry the account, the addresses or the text of the mail.
abbrev pub is_private : Command → Bool
is_private (authenticates u p) = true
is_private (mails_from s) = true
is_private (rcpts_to s) = true
is_private (writes s) = true
is_private _ = false

-- Whether a private command was given in clear.
abbrev pub exposed : List Step → Bool
exposed xs = any (λ x. is_private x.1 && not x.0) xs

abbrev pub opening : Bool → List Step → List Step
opening tls rest =
    (false, if tls then dials_tls else dials_clear)
      ∷ (tls, greets)
      ∷ (if tls then [] else (false, asks_starttls) ∷ (false, starts_tls) ∷ [])
    ++ rest

abbrev pub identity : Bool → String → String → List Step
identity anonymous username password =
    if anonymous then [] else (true, authenticates username password) ∷ []

abbrev pub ending : String → List Step
ending message = (true, writes message) ∷ (true, ends_data) ∷ (true, quits) ∷ []

-- The commands of a whole delivery.
abbrev pub session : SmtpConfig → (to message : String) → List Step
session c to message = opening (is_implicit_tls c) (
    identity (is_empty c.username) c.username c.password
    ++ (true, mails_from c.sender) ∷ (true, rcpts_to to) ∷ (true, opens_data) ∷ ending message)

module _ (plan : List Step) where
  -- What is left of the plan.
  abbrev pub Stage : Bool → List Step → Wire → Type 0
  Stage b rest w = (w.secured ≡ b) × (w.given ++ rest ≡ plan)

  abbrev pub Stopped : Wire → Type 0
  Stopped w = (rest : List Step) × (w.given ++ rest ≡ plan)

  abbrev pub Goes : Bool → List Step → Exec Wire (Unit {0}) → Bool → List Step → Type 0
  Goes b rest m b' rest' = Hoare (Stage b rest) m (Outcome (λ _. Stage b' rest') Stopped)

  noted-Stage :
      (b : Bool) (c : Command) (rest : List Step) (w : Wire)
      → Stage b ((b, c) ∷ rest) w
      → Stage b rest (noted c w)
  noted-Stage b c rest w (e, p) = (
    e,
    append_assoc w.given ((w.secured, c) ∷ []) rest ∙ ap (λ x. w.given ++ (x, c) ∷ rest) e ∙ p,
  )

  say-Stage :
      (f : Error → Error) (b : Bool) (c : Command) (rest : List Step)
      → Hoare (Stage b ((b, c) ∷ rest)) (say f c) (λ r. Stage b rest)
  unfolding say
  say-Stage f b c rest = record { at = λ s fs p. go s fs (fault fs) (noted-Stage b c rest s p) }
    where
      go :
          (w : Wire) (fs : Faults) (o : Option Error)
          → Stage b rest (noted c w)
          → (let x = (elim o as (λ _. Result (Unit {0}) × Wire × Faults) [
            | none ↦ (ok tt, noted c w, after fs)
            | some e ↦ (err (f e), noted c w, after fs)
          ]) in
              Stage b rest x.1)
      go w fs none p = p
      go w fs (some e) p = p

  Stage-Goes :
      (b : Bool) (rest : List Step) (r : Result (Unit {0})) (w : Wire)
      → Stage b rest w
      → Outcome (λ _. Stage b rest) Stopped r w
  Stage-Goes b rest (ok _) w p = p
  Stage-Goes b rest (err e) w p = (rest, p.1)

  pub say-Goes :
      (f : Error → Error) (b : Bool) (c : Command) (rest : List Step)
      → Goes b ((b, c) ∷ rest) (say f c) b rest
  say-Goes f b c rest = Hoare-weaken _ (Stage-Goes b rest) (say-Stage f b c rest)

  -- One part after the other.
  pub then-Goes :
      (b b' b'' : Bool) (l l' l'' : List Step) (m n : Exec Wire (Unit {0}))
      → Goes b l m b' l'
      → Goes b' l' n b'' l''
      → Goes b l (m >>= λ _. n) b'' l''
  then-Goes b b' b'' l l' l'' m n h k =
      Hoare-bind (Outcome (λ _. Stage b' l') Stopped) m (λ _. n) h (λ e w p. p) (λ _. k)

  secure-Goes : (b : Bool) (rest : List Step) → Goes b rest secure true rest
  unfolding secure
  secure-Goes b rest = record { at = λ w fs p. (refl, p.1) }

  pub dial-Goes :
      (tls : Bool) (f g : Error → Error) (rest : List Step)
      → Goes false
          ((false, if tls then dials_tls else dials_clear) ∷ rest)
          (if tls then (say f dials_tls >>= λ _. secure) else say g dials_clear)
          tls
          rest
  dial-Goes true f g rest =
      then-Goes false false true _ rest rest _ _ (say-Goes f false dials_tls rest)
        (secure-Goes false rest)
  dial-Goes false f g rest = say-Goes g false dials_clear rest

  offered-Stage :
      (rest : List Step) (r : Result (Unit {0}))
      → Hoare (Stage false rest) (offered r) (Outcome (λ _. Stage false rest) Stopped)
  offered-Stage rest (ok _) = record { at = λ w fs p. p }
  offered-Stage rest (err e) = record { at = λ w fs p. p }

  upgraded-Goes :
      (rest : List Step) (b : Bool) → Goes false ((false, starts_tls) ∷ rest) (upgraded b) true rest
  unfolding upgraded
  upgraded-Goes rest true =
      then-Goes false false true _ rest rest _ _ (say-Goes _ false starts_tls rest)
        (secure-Goes false rest)
  upgraded-Goes rest false = Hoare-raise _ (λ w p. (_, p.1))

  pub upgrade-Goes :
      (c : SmtpConfig) (rest : List Step)
      → Goes
          (is_implicit_tls c)
          ((if is_implicit_tls c then [] else (false, asks_starttls) ∷ (false, starts_tls) ∷ [])
            ++ rest)
          (upgrade c)
          true
          rest
  unfolding upgrade extension
  upgrade-Goes c rest = go (is_implicit_tls c)
    where
      go :
          (tls : Bool)
          → Goes tls
              ((if tls then [] else (false, asks_starttls) ∷ (false, starts_tls) ∷ []) ++ rest)
              (if tls then pure tt else extension >>= upgraded)
              true
              rest
      go true = Hoare-pure tt (λ w p. p)
      go false =
          Hoare-bind (Outcome (λ _. Stage false ((false, starts_tls) ∷ rest)) Stopped) extension
            upgraded
            (Hoare-result (λ r. Stage false ((false, starts_tls) ∷ rest)) _ _
              (say-Stage _ false asks_starttls _) (offered-Stage _))
            (λ e w p. p) (upgraded-Goes rest)

  pub identify-Goes :
      (c : SmtpConfig) (rest : List Step)
      → Goes true
          (identity (is_empty c.username) c.username c.password ++ rest)
          (identify c)
          true
          rest
  unfolding identify
  identify-Goes c rest = go (is_empty c.username)
    where
      go :
          (b : Bool)
          → Goes true
              (identity b c.username c.password ++ rest)
              (if b
                then pure tt
                else say (wrapped "smtp auth") (authenticates c.username c.password))
              true
              rest
      go true = Hoare-pure tt (λ w p. p)
      go false = say-Goes _ true _ rest

  written-Goes :
      (rest : List Step) (r : Result (Unit {0}))
      → Goes true ((true, ends_data) ∷ rest) (written r) true rest
  unfolding written
  written-Goes rest (ok _) = say-Goes _ true ends_data rest
  written-Goes rest (err e) =
      Hoare-bind (λ r. Stage true rest) _ _ (Hoare-forget _ (say-Stage _ true ends_data rest))
        (λ x w p. (rest, p.1)) (λ _. Hoare-raise e (λ w p. (rest, p.1)))

  write_body-Goes :
      (message : String) (rest : List Step)
      → Goes true ((true, writes message) ∷ (true, ends_data) ∷ rest) (write_body message) true rest
  unfolding write_body
  write_body-Goes message rest =
      Hoare-result (λ r. Stage true ((true, ends_data) ∷ rest)) _ _
        (say-Stage _ true (writes message) _) (written-Goes rest)

  pub envelope-Goes :
      (c : SmtpConfig) (to message : String)
      → Goes true
          ((true, mails_from c.sender) ∷ (true, rcpts_to to) ∷ (true, opens_data) ∷ ending message)
          (envelope c to message)
          true
          []
  unfolding envelope
  envelope-Goes c to message =
      then-Goes _ true _ _ _ _ _ _ (say-Goes _ true (mails_from c.sender) _) (
        then-Goes _ true _ _ _ _ _ _ (say-Goes _ true (rcpts_to to) _) (
          then-Goes _ true _ _ _ _ _ _ (say-Goes _ true opens_data _)
            (then-Goes _ true _ _ _ _ _ _ (write_body-Goes message _) (say-Goes _ true quits []))))
