-- ===== src/Checker.antt =====
-- One check of a site (internal/checker/checker.go). The network is outside of the repository: what
-- the resolver and the HTTP client answer is an argument.
mod Tests
pub mod Expected
pub mod Verdicts
use uptime_monitor_api.Base.{
  ℕ, ◌+◌, ◌-◌, ◌*◌, ◌/◌, ◌%◌, ◌^◌, Bool, true, false, not, ◌&&◌, ◌||◌, Option, none, some, List, [],
  ◌∷◌, ◌++◌, String, ◌==◌, ltb, leb, if◌then◌else◌, any,
}
use uptime_monitor_api.Base.Int.{ℤ, pos, negsuc, ltb_ℤ, eqb_ℤ}
use uptime_monitor_api.Base.Text.{is_empty, contains, ◌⧺◌}
use uptime_monitor_api.Base.Decimal.{show, show_ℤ}
use uptime_monitor_api.Config.{SiteConfig, ContentCheck, SslCheck, Library, host}
use uptime_monitor_api.Site.Tick.{Tick, CheckError, add_fail}
use uptime_monitor_api.Alerts.Message.{nanoseconds, day, days_left}
use mathlib.Core.Option.{map as map_option}

-- The answer to the GET: its status, the first MiB of its body, and the expiry of the leaf
-- certificate in Unix seconds, where the connection has one.
pub record Response : Type 0 where
  pub status_code : ℕ
  pub body : String
  pub not_after : Option ℕ

pub data Exchange : Type 0 where
  bad_request : String → Exchange
  request_failed : ℕ → String → Exchange
  responded : ℕ → Response → Exchange

-- What one tick meets: the error of the name lookup, if it fails, and the exchange with its
-- milliseconds.
pub record Network : Type 0 where
  pub lookup_error : String → Option String
  pub exchange : Exchange

-- `statusAcceptable`
unfoldable pub status_acceptable : ℤ → List ℤ → Bool
status_acceptable code [] = not (ltb_ℤ code (pos 200)) && ltb_ℤ code (pos 400)
status_acceptable code (e ∷ es) = any (eqb_ℤ code) (e ∷ es)

-- `%q` of package fmt stands for itself: only that a message is not empty matters to the caller.
abbrev pub missing : (String → String) → String → List String → Option String
missing quote body [] = none
missing quote body (want ∷ rest) =
    let later = missing quote body rest in
    if not (is_empty want) && not (contains body want)
    then some ("body missing expected text " ⧺ quote want)
    else later

abbrev pub forbidden : (String → String) → String → List String → Option String
forbidden quote body [] = none
forbidden quote body (bad ∷ rest) =
    let later = forbidden quote body rest in
    if not (is_empty bad) && contains body bad
    then some ("body contained forbidden text " ⧺ quote bad)
    else later

-- `evalContent`, whose empty text is `none` here.
unfoldable pub eval_content : (String → String) → String → ContentCheck → Option String
unfolding contains
eval_content quote body c = elim (missing quote body c.must_contain) [
  | some msg ↦ some msg
  | none ↦ forbidden quote body c.must_not_contain
]

abbrev pub fail : String → String → Tick → Tick
fail check msg t = add_fail check msg (record t { up = false })

abbrev pub fail_if : Bool → String → String → Tick → Tick
fail_if bad check msg t = if bad then fail check msg t else t

abbrev pub fail_with : String → Option String → Tick → Tick
fail_with check none t = t
fail_with check (some msg) t = fail check msg t

abbrev pub warn : String → Tick → Tick
warn msg t = record t { errors = t.errors ++ record { check_type = "ssl"; message = msg } ∷ [] }

-- The clock is in Unix nanoseconds, an expiry in seconds.
abbrev pub past : ℕ → ℕ → Bool
past clock expiry = ltb (expiry * nanoseconds) clock

-- Whether the clock is past `warnBefore`, the expiry less the days of warning. The days are a
-- `time.Duration`, 64 bits of nanoseconds: `before` is their number modulo 2 ^ 64, and what is past
-- 2 ^ 63 stands for a negative one.
abbrev pub past_warning : ℕ → ℕ → ℕ → Bool
past_warning clock expiry before =
    if leb before (2 ^ 63)
    then ltb (expiry * nanoseconds) (clock + before)
    else ltb (expiry * nanoseconds + (2 ^ 64 - before)) clock

abbrev pub warns : SslCheck → ℕ → ℕ → Bool
warns c clock expiry = elim c.warn_days [
  | pos days ↦ ltb 0 days && past_warning clock expiry (days * day % 2 ^ 64)
  | negsuc n ↦ false
]

-- `evalSSL`
unfoldable pub eval_ssl : ℕ → Option ℕ → SslCheck → Tick → Tick
unfolding days_left
eval_ssl clock none c t = warn "no TLS certificate presented" t
eval_ssl clock (some expiry) c t =
    let t' = record t { ssl_expires_at = pos expiry } in
    if past clock expiry
    then fail "ssl" "certificate expired" t'
    else if warns c clock expiry
    then warn ("certificate expires in " ⧺ show_ℤ (days_left (pos expiry) clock) ⧺ " days") t'
    else t'

module _ (lib : Library) (quote : String → String) where
  -- The tick before the first check.
  abbrev pub started : ℕ → SiteConfig → Bool → Tick
  started clock site slow = record {
    ts = clock / nanoseconds;
    up = true;
    status_code = 0;
    response_ms = 0;
    failed_checks = [];
    error = "";
    errors = [];
    ssl_checked = slow && site.checks.ssl.enabled;
    ssl_expires_at = pos 0;
  }

  -- The lookup of the host, where the URL has one.
  abbrev pub dns_error : Network → SiteConfig → Bool → Option String
  dns_error net site slow =
      let name = host lib site in
      if slow && site.checks.dns.enabled && not (is_empty name)
      then map_option (λ e. "dns resolution failed: " ⧺ e) (net.lookup_error name)
      else none

  abbrev pub bad_status : SiteConfig → Response → Bool
  bad_status site r =
      site.checks.http.enabled
      && not (status_acceptable (pos r.status_code) site.checks.http.expect_status)

  abbrev pub too_slow : SiteConfig → ℕ → Bool
  too_slow site elapsed =
      let max = site.checks.latency.max_ms in
      site.checks.latency.enabled && ltb_ℤ (pos 0) max && ltb_ℤ max (pos elapsed)

  abbrev pub content_error : SiteConfig → Response → Option String
  content_error site r =
      if site.checks.content.enabled then eval_content quote r.body site.checks.content else none

  abbrev pub check_response : ℕ → SiteConfig → Bool → ℕ → Response → Tick → Tick
  check_response clock site slow elapsed r t =
      let t₁ = record t { response_ms = elapsed; status_code = r.status_code } in
      let t₂ = fail_if (bad_status site r) "http" ("unexpected status " ⧺ show r.status_code) t₁ in
      let t₃ =
        fail_if (too_slow site elapsed) "latency"
          ("response " ⧺ show elapsed ⧺ "ms exceeded " ⧺ show_ℤ site.checks.latency.max_ms ⧺ "ms")
          t₂ in
      let t₄ = fail_with "content" (content_error site r) t₃ in
      if slow && site.checks.ssl.enabled then eval_ssl clock r.not_after site.checks.ssl t₄ else t₄

  abbrev pub check_exchange : ℕ → SiteConfig → Bool → Exchange → Tick → Tick
  check_exchange clock site slow (bad_request e) t = fail "http" ("bad request: " ⧺ e) t
  check_exchange clock site slow (request_failed elapsed e) t =
      fail "http" ("request failed: " ⧺ e) (record t { response_ms = elapsed })
  check_exchange clock site slow (responded elapsed r) t =
      check_response clock site slow elapsed r t

  -- `RunTick`, at one reading of the clock.
  unfoldable pub run_tick : ℕ → Network → SiteConfig → Bool → Tick
  unfolding status_acceptable eval_content eval_ssl add_fail host
  run_tick clock net site slow =
      check_exchange clock site slow net.exchange
        (fail_with "dns" (dns_error net site slow) (started clock site slow))
