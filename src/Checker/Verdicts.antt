-- ===== src/Checker/Verdicts.antt =====
-- What a tick reports: the checks that failed, and whether the site is up.
use uptime_monitor_api.Base.{
  ◌≡◌, refl, sym, ◌∙◌, ℕ, Bool, true, false, ◌&&◌, Option, none, some, List, [], ◌∷◌, ◌++◌, String,
  if◌then◌else◌, ap,
}
use uptime_monitor_api.Base.Text.{◌⧺◌}
use uptime_monitor_api.Base.Int.{pos}
use uptime_monitor_api.Base.Decimal.{show, show_ℤ}
use uptime_monitor_api.Alerts.Message.{days_left}
use mathlib.Core.List.{append-nil, append_assoc}
use uptime_monitor_api.Config.{SiteConfig, SslCheck, Library}
use uptime_monitor_api.Site.Tick.{Tick, add_fail}
use uptime_monitor_api.Checker.Expected.{
  flag, is_some, unexpected, exceeds, wrong_content, lapsed, unresolved, exchange_verdicts,
  verdicts, bad_status-unexpected, too_slow-exceeds, content_error-wrong_content,
  dns_error-unresolved,
}
use uptime_monitor_api.Checker.{
  Network, Exchange, run_tick, bad_request, request_failed, responded, fail, fail_if, fail_with,
  started, dns_error, bad_status, too_slow, content_error, check_exchange, eval_ssl, past, warn,
  warns,
}

abbrev pub expired : ℕ → Option ℕ → Bool
expired clock none = false
expired clock (some expiry) = past clock expiry

abbrev pub all_passed : List String → Bool
all_passed [] = true
all_passed (v ∷ vs) = false

-- `t'` adds the failed checks `vs` to those of `t`, and is down if there are any.
record Adds (vs : List String) (t t' : Tick) : Type 0 where
  failed : t'.failed_checks ≡ t.failed_checks ++ vs
  remains_up : t'.up ≡ (t.up && all_passed vs)

all_passed-append :
    (b : Bool) (vs ws : List String)
    → (b && all_passed vs && all_passed ws) ≡ (b && all_passed (vs ++ ws))
all_passed-append true [] ws = refl
all_passed-append true (v ∷ vs) ws = refl
all_passed-append false [] ws = refl
all_passed-append false (v ∷ vs) ws = refl

Adds-trans :
    {vs ws : List String} (t t' t'' : Tick) → Adds vs t t' → Adds ws t' t'' → Adds (vs ++ ws) t t''
Adds-trans {vs} {ws} t t' t'' h k = record {
  failed = k.failed ∙ ap (λ l. l ++ ws) h.failed ∙ append_assoc t.failed_checks vs ws;
  remains_up =
      k.remains_up ∙ ap (λ b. b && all_passed ws) h.remains_up ∙ all_passed-append t.up vs ws;
}

Adds-none : (t t' : Tick) → t'.failed_checks ≡ t.failed_checks → t'.up ≡ t.up → Adds [] t t'
Adds-none t t' p q = record {
  failed = p ∙ sym (append-nil t.failed_checks);
  remains_up = q ∙ and_true t.up;
}
  where
    and_true : (b : Bool) → b ≡ (b && true)
    and_true true = refl
    and_true false = refl

Adds-from :
    {vs : List String} (t₀ t : Tick) {t' : Tick}
    → t₀.failed_checks ≡ t.failed_checks
    → t₀.up ≡ t.up
    → Adds vs t₀ t'
    → Adds vs t t'
Adds-from {vs} t₀ t p q h = record {
  failed = h.failed ∙ ap (λ l. l ++ vs) p;
  remains_up = h.remains_up ∙ ap (λ b. b && all_passed vs) q;
}

fail-Adds : (check msg : String) (t : Tick) → Adds (check ∷ []) t (fail check msg t)
unfolding add_fail
fail-Adds check msg t = record { failed = refl; remains_up = and_false t.up }
  where
    and_false : (b : Bool) → false ≡ (b && false)
    and_false true = refl
    and_false false = refl

fail_if-Adds :
    (b : Bool) (check msg : String) (t : Tick) → Adds (flag b check) t (fail_if b check msg t)
fail_if-Adds true check msg t = fail-Adds check msg t
fail_if-Adds false check msg t = Adds-none t t refl refl

fail_with-Adds :
    (check : String) (o : Option String) (t : Tick)
    → Adds (flag (is_some o) check) t (fail_with check o t)
fail_with-Adds check none t = Adds-none t t refl refl
fail_with-Adds check (some msg) t = fail-Adds check msg t

eval_ssl-Adds :
    (clock : ℕ) (o : Option ℕ) (c : SslCheck) (t : Tick)
    → Adds (flag (expired clock o) "ssl") t (eval_ssl clock o c t)
unfolding eval_ssl
eval_ssl-Adds clock none c t = Adds-none t (warn "no TLS certificate presented" t) refl refl
eval_ssl-Adds clock (some expiry) c t = expiry_cases (past clock expiry) (warns c clock expiry)
  where
    t' : Tick
    t' = record t { ssl_expires_at = pos expiry }

    msg : String
    msg = "certificate expires in " ⧺ show_ℤ (days_left (pos expiry) clock) ⧺ " days"

    expiry_cases :
        (b b' : Bool)
        → Adds
            (flag b "ssl")
            t
            (if b then fail "ssl" "certificate expired" t' else if b' then warn msg t' else t')
    expiry_cases true b' = Adds-from t' t refl refl (fail-Adds "ssl" "certificate expired" t')
    expiry_cases false true = Adds-none t (warn msg t') refl refl
    expiry_cases false false = Adds-none t t' refl refl

module _ (lib : Library) (quote : String → String) (clock : ℕ) (site : SiteConfig)
    (slow : Bool) where
  -- The checks that fail on the way through an exchange.
  abbrev exchange_fired : Exchange → List String
  exchange_fired (bad_request e) = "http" ∷ []
  exchange_fired (request_failed elapsed e) = "http" ∷ []
  exchange_fired (responded elapsed r) =
      flag (bad_status lib quote site r) "http"
      ++ flag (too_slow lib quote site elapsed) "latency"
      ++ flag (is_some (content_error lib quote site r)) "content"
      ++ flag ((slow && site.checks.ssl.enabled) && expired clock r.not_after) "ssl"

  abbrev fired : Network → List String
  fired net =
      flag (is_some (dns_error lib quote net site slow)) "dns" ++ exchange_fired net.exchange

  ssl-Adds :
      (b : Bool) (o : Option ℕ) (t : Tick)
      → Adds
          (flag (b && expired clock o) "ssl")
          t
          (if b then eval_ssl clock o site.checks.ssl t else t)
  ssl-Adds true o t = eval_ssl-Adds clock o site.checks.ssl t
  ssl-Adds false o t = Adds-none t t refl refl

  check_exchange-Adds :
      (x : Exchange) (t : Tick)
      → Adds (exchange_fired x) t (check_exchange lib quote clock site slow x t)
  check_exchange-Adds (bad_request e) t = fail-Adds "http" ("bad request: " ⧺ e) t
  check_exchange-Adds (request_failed elapsed e) t =
      let t' = record t { response_ms = elapsed } in
      Adds-from t' t refl refl (fail-Adds "http" ("request failed: " ⧺ e) t')
  check_exchange-Adds (responded elapsed r) t =
      Adds-trans t t₃ t₄
        (Adds-trans t t₂ t₃
          (Adds-trans t t₁ t₂
            (Adds-from t₀ t refl refl
              (fail_if-Adds (bad_status lib quote site r) "http" status_msg t₀))
            (fail_if-Adds (too_slow lib quote site elapsed) "latency" latency_msg t₁))
          (fail_with-Adds "content" (content_error lib quote site r) t₂))
        (ssl-Adds (slow && site.checks.ssl.enabled) r.not_after t₃)
    where
      status_msg : String
      status_msg = "unexpected status " ⧺ show r.status_code

      latency_msg : String
      latency_msg =
          "response " ⧺ show elapsed ⧺ "ms exceeded " ⧺ show_ℤ site.checks.latency.max_ms ⧺ "ms"

      t₀ : Tick
      t₀ = record t { response_ms = elapsed; status_code = r.status_code }

      t₁ : Tick
      t₁ = fail_if (bad_status lib quote site r) "http" status_msg t₀

      t₂ : Tick
      t₂ = fail_if (too_slow lib quote site elapsed) "latency" latency_msg t₁

      t₃ : Tick
      t₃ = fail_with "content" (content_error lib quote site r) t₂

      t₄ : Tick
      t₄ =
          if slow && site.checks.ssl.enabled
          then eval_ssl clock r.not_after site.checks.ssl t₃
          else t₃

  run_tick-Adds :
      (net : Network)
      → Adds
          (fired net)
          (started lib quote clock site slow)
          (run_tick lib quote clock net site slow)
  unfolding run_tick
  run_tick-Adds net =
      let t =
        fail_with "dns" (dns_error lib quote net site slow) (started lib quote clock site slow) in
      Adds-trans (started lib quote clock site slow) t
        (check_exchange lib quote clock site slow net.exchange t)
        (fail_with-Adds "dns" (dns_error lib quote net site slow)
          (started lib quote clock site slow))
        (check_exchange-Adds net.exchange t)

  exchange_fired-verdicts :
      (x : Exchange) → exchange_fired x ≡ exchange_verdicts lib quote clock site slow x
  exchange_fired-verdicts (bad_request e) = refl
  exchange_fired-verdicts (request_failed elapsed e) = refl
  exchange_fired-verdicts (responded elapsed r) =
      ap
        (λ b.
          flag b "http"
          ++ flag (too_slow lib quote site elapsed) "latency"
          ++ flag (is_some (content_error lib quote site r)) "content"
          ++ ssl)
        (bad_status-unexpected lib quote clock site slow r)
      ∙ ap
          (λ b.
            flag status "http"
            ++ flag b "latency"
            ++ flag (is_some (content_error lib quote site r)) "content"
            ++ ssl)
          (too_slow-exceeds lib quote clock site slow elapsed)
      ∙ ap
          (λ b.
            flag status "http"
            ++ flag (site.checks.latency.enabled && exceeds elapsed site.checks.latency.max_ms)
                "latency"
            ++ flag b "content"
            ++ ssl)
          (content_error-wrong_content lib quote clock site slow r)
      ∙ ap
          (λ b.
            flag status "http"
            ++ flag (site.checks.latency.enabled && exceeds elapsed site.checks.latency.max_ms)
                "latency"
            ++ flag (site.checks.content.enabled && wrong_content r.body site.checks.content)
                "content"
            ++ flag ((slow && site.checks.ssl.enabled) && b) "ssl")
          (expired-lapsed r.not_after)
    where
      ssl : List String
      ssl = flag ((slow && site.checks.ssl.enabled) && expired clock r.not_after) "ssl"

      status : Bool
      status = site.checks.http.enabled && unexpected site.checks.http.expect_status r.status_code

      expired-lapsed : (o : Option ℕ) → expired clock o ≡ lapsed clock o
      expired-lapsed none = refl
      expired-lapsed (some expiry) = refl

  fired-verdicts : (net : Network) → fired net ≡ verdicts lib quote clock site slow net
  fired-verdicts net =
      ap (λ b. flag b "dns" ++ exchange_fired net.exchange)
        (dns_error-unresolved lib quote clock site slow net)
      ∙ ap (λ l. flag (unresolved lib quote clock site slow net) "dns" ++ l)
          (exchange_fired-verdicts net.exchange)

  -- A tick's failed checks are exactly the checks that have to fail by the configuration and the answers
  -- of the network, in this order: dns, where it is enabled, is due, and the host does not resolve; http,
  -- for a request that fails or, where it is enabled, a status that is not expected; latency and content
  -- for an answer beyond the bound or with a text missing or forbidden, where they are enabled; ssl for
  -- an expired certificate, where it is enabled and due. The site counts as up if and only if there are
  -- none: a certificate that is near its expiry or missing fails nothing.
  pub run_tick-verdicts :
      (net : Network)
      → let t = run_tick lib quote clock net site slow in
        let vs = verdicts lib quote clock site slow net in
        (t.failed_checks ≡ vs) × (t.up ≡ all_passed vs)
  run_tick-verdicts net =
      let h = run_tick-Adds net in
      let e = fired-verdicts net in (h.failed ∙ e, h.remains_up ∙ ap all_passed e)
